-- ===== src/World/Keep.antt =====
-- What holds of a pool, its clients and the requests that wait, through what one client did and through
-- what happens to the pool alone.
use uni_event_http.Base.{
  ℕ, ◌≡◌, refl, true, Option, none, some, List, [], ◌∷◌, ◌∙◌, sym, subst, ap, arith, reverse,
  is_some, if_elim, update,
}
use uni_event_http.Pool.State.{
  NetLoc, NetLocList, Pool, has, erase, find, store, cancel_request, cancel_at, check_inactivity,
  check_entries, remove_time, on_idle_timer,
}
use uni_event_http.Client.State.{Scheme, Request, PoolCall, put_back, Client}
use uni_event_http.World.Plain.{Serves, Rests, After, StartableIf}
use uni_event_http.World.Outcome.{Outcome, stays, returns, moves, changed-After, changed-Serves}
use uni_event_http.World.State.{World, settle, first_of, cancel_waiting, fire_idle_timer}
use uni_event_http.Pool.Location.{find-store_same}
use uni_event_http.World.Table.{
  Distinct, has-erase, has-drop_inactive, count-drop_inactive, find-store_other, store-Distinct,
  check_entries-Distinct, find-check_entries,
}
use uni_event_http.World.Entry.{
  hosts, EntryHolds, WorldHolds, changed-WorldHolds, hosts-Alone, new-Alone, busy-not_free,
  other-EntryHolds, new-not_hosted,
}
use uni_event_http.World.Calls.{put_world, kept-EntryHolds, ask-WorldHolds, putback-WorldHolds}

module _ (default_port : Scheme → ℕ) where
  -- Only the client `k` changes, and stays in its place.
  pub stays-WorldHolds :
      (n : NetLoc) (l : NetLocList) (k : ℕ) (c : Client) (w : World)
      → find n w.pool.clients ≡ some l
      → hosts k l ≡ true
      → (has k l.free ≡ true → Rests default_port n [] c)
      → (has k l.busy ≡ true → Serves default_port n [] c)
      → WorldHolds default_port w
      → WorldHolds default_port (record w { client = update w.client k c })
  unfolding put_world
  stays-WorldHolds n l k c w f h r v s =
      changed-WorldHolds default_port k n l w _
        (record {
          clients = λ j q. ground (arith, q);
          objects = λ i q. refl;
          more_clients = omega arith;
          more_requests = omega arith;
        })
        (hosts-Alone default_port k n l w f h s) f (λ m q. refl) s.distinct s.faultless
        (record {
          free = kept.free;
          busy = kept.busy;
          queue = kept.queue;
          known = kept.known;
          numbered = kept.numbered;
          once_free = kept.once_free;
          once_busy = kept.once_busy;
        })
        s
    where
      kept : EntryHolds default_port n l (put_world n l k c w.pool.started w)
      kept =
          kept-EntryHolds default_port n l l k c w.pool.started w refl refl (λ i h. h) r v
            (s.entries n l f)

  called :
      (n : NetLoc) (calls : List PoolCall) (o : Option Request) (c : Client)
      → After default_port n calls o c
      → c.pool_calls ≡ calls
  called n calls none c a = a.called
  called n calls (some q) c a = a.called

  pub startable :
      (n : NetLoc) (l : NetLocList) (w : World)
      → EntryHolds default_port n l w
      → StartableIf default_port n (first_of l.queue w.object)
  startable n l w e = by_queue l.queue refl
    where
      by_queue : (q : List ℕ) → l.queue ≡ q → StartableIf default_port n (first_of q w.object)
      by_queue [] x = tt
      by_queue (i ∷ q) x = e.queue i (ground (arith, x))

  -- What the client's calls of the pool lead to.
  pub settle-WorldHolds :
      (n : NetLoc) (l : NetLocList) (k : ℕ) (c : Client) (w : World)
      → find n w.pool.clients ≡ some l
      → has k l.busy ≡ true
      → Outcome default_port n (first_of l.queue w.object) c
      → WorldHolds default_port w
      → WorldHolds default_port (
          settle default_port k
            (reverse c.pool_calls)
            (record w { client = update w.client k (record c { pool_calls = [] }) }))
  unfolding settle
  settle-WorldHolds n l k c w f b outcome s = by_outcome outcome
    where
      settled : List PoolCall → World
      settled calls =
          settle default_port k (reverse calls)
            (record w { client = update w.client k (record c { pool_calls = [] }) })

      first : Option Request
      first = first_of l.queue w.object

      back :
          (calls : List PoolCall)
          → After default_port n calls first c
          → WorldHolds default_port (settled (put_back n ∷ []))
      back calls a =
          putback-WorldHolds default_port n l k (record c { pool_calls = [] }) w f b
            (changed-After default_port n calls [] first c _ refl refl refl (λ e. refl) a) s

      by_outcome : Outcome default_port n first c → WorldHolds default_port (settled c.pool_calls)
      by_outcome (stays v) =
          subst (λ calls. WorldHolds default_port (settled calls)) (sym v.called)
            (stays-WorldHolds n l k (record c { pool_calls = [] }) w f (ground (arith, b))
              (λ h.
                absurd (ground (arith, h, busy-not_free default_port k n l w (s.entries n l f) b)))
              (λ _. changed-Serves default_port n c _ refl refl refl (sym v.called) v) s)
      by_outcome (returns a) =
          subst (λ calls. WorldHolds default_port (settled calls)) (sym (called n _ first c a))
            (back _ a)
      by_outcome (moves q p i a) =
          subst (λ calls. WorldHolds default_port (settled calls)) (sym (called n _ first c a))
            (ask-WorldHolds default_port q _ p i (back _ a))

  pub cancel_waiting-WorldHolds :
      (n : NetLoc) (l : NetLocList) (i : ℕ) (w : World)
      → find n w.pool.clients ≡ some l
      → has i l.queue ≡ true
      → WorldHolds default_port w
      → WorldHolds default_port (cancel_waiting default_port i w)
  unfolding cancel_waiting cancel_request
  cancel_waiting-WorldHolds n l i w f h s =
      subst
        (λ m.
          WorldHolds default_port
            (record w { pool = cancel_at m i (find m w.pool.clients) w.pool }))
        (sym (old.queue i h).located)
        (subst (λ o. WorldHolds default_port (record w { pool = cancel_at n i o w.pool })) (sym f)
          (if_elim (λ (p : Pool). WorldHolds default_port (record w { pool = p })) (has i l.queue) _
            _ (λ _. without) (λ q. absurd (ground (arith, q, h)))))
    where
      old : EntryHolds default_port n l w
      old = s.entries n l f

      l' : NetLocList
      l' = record l { queue = erase i l.queue }

      without : WorldHolds default_port (record w {
        pool = record w.pool {
          clients = store n l' w.pool.clients;
          cancelled = i ∷ w.pool.cancelled;
        };
      })
      without =
          changed-WorldHolds default_port w.pool.next_client n l' w _
            (record {
              clients = λ j q. refl;
              objects = λ j q. refl;
              more_clients = omega arith;
              more_requests = omega arith;
            })
            (new-Alone default_port n w s) (find-store_same n l l' w.pool.clients f)
            (λ m q. find-store_other n m l' w.pool.clients q)
            (store-Distinct n l' w.pool.clients s.distinct) s.faultless
            (record {
              free = old.free;
              busy = old.busy;
              queue = λ j q. old.queue j (has-erase j i l.queue q);
              known = old.known;
              numbered = λ j q. old.numbered j (has-erase j i l.queue q);
              once_free = old.once_free;
              once_busy = old.once_busy;
            })
            s

  pub fire_idle_timer-WorldHolds :
      (now : ℕ) (w : World)
      → WorldHolds default_port w
      → WorldHolds default_port (fire_idle_timer default_port now w)
  unfolding fire_idle_timer on_idle_timer check_inactivity
  fire_idle_timer-WorldHolds now w s =
      if_elim (λ (p : Pool). WorldHolds default_port (record w { pool = p }))
        (is_some w.pool.idle_timer) _ _ (λ _. checked) (λ _. s)
    where
      last : ℕ → ℕ
      last k = (w.client k).last_activity_time

      limit : ℕ
      limit = remove_time now w.pool.idle_timeout

      checked :
          WorldHolds default_port (record w {
            pool = record w.pool { clients = check_entries last limit w.pool.clients };
          })
      checked = record {
        entries = λ n l g.
            let b = find-check_entries last limit n l w.pool.clients s.distinct g in
            let old = s.entries n b.entry b.found in
            let free = has-drop_inactive last limit in
            record {
              free = λ j h. old.free j (free j b.entry.free (ground (arith, h, b.is_checked)));
              busy = λ j h. old.busy j (ground (arith, h, b.is_checked));
              queue = λ i h. old.queue i (ground (arith, h, b.is_checked));
              known = λ j h. old.known j (ground (arith, h, b.is_checked, free j b.entry.free));
              numbered = λ i h. old.numbered i (ground (arith, h, b.is_checked));
              once_free = λ j. ground (
                arith,
                b.is_checked,
                count-drop_inactive last limit j b.entry.free,
                old.once_free j,
              );
              once_busy = λ j. ground (arith, b.is_checked, old.once_busy j);
            };
        distinct = check_entries-Distinct last limit w.pool.clients s.distinct;
        faultless = s.faultless;
      }

  pub same_table-WorldHolds :
      (w : World) (p : Pool)
      → p.clients ≡ w.pool.clients
      → p.next_client ≡ w.pool.next_client
      → p.faults ≡ w.pool.faults
      → WorldHolds default_port w
      → WorldHolds default_port (record w { pool = p })
  same_table-WorldHolds w p x y z s = record {
    entries = λ n l f.
        let e = s.entries n l (ap (λ t. find n t) (sym x) ∙ f) in
        other-EntryHolds default_port w.pool.next_client n l w _
          (new-not_hosted default_port n l w e)
          (record {
            clients = λ j q. refl;
            objects = λ i q. refl;
            more_clients = omega (arith, y);
            more_requests = omega arith;
          })
          e;
    distinct = subst Distinct (sym x) s.distinct;
    faultless = z ∙ s.faultless;
  }
