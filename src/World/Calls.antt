-- ===== src/World/Calls.antt =====
-- The calls of a pool, by the user and by its clients (`request` and `putback` of Pool.cc).
use uni_event_http.Base.{
  ℕ, suc, ◌≡◌, refl, true, false, Option, none, some, List, [], ◌∷◌, ◌++◌, ◌==◌, sym, ap, subst,
  arith, if_elim, update,
}
use uni_event_http.Pool.State.{
  NetLoc, NetLocList, has, find, store, set_insert, erase, assign, request, request_at, release,
  putback, putback_at, goes_on,
}
use uni_event_http.Client.State.{Scheme, Uri, Request, Client, netloc, check_uri}
use uni_event_http.World.Plain.{IsPlain, location_at, IsStartable, Serves, Rests, After}
use uni_event_http.World.State.{
  World, enqueued, start_on, start_if, ask_at, ask_checked, ask, first_of,
}
use uni_event_http.Pool.Location.{find-store_same}
use uni_event_http.World.Table.{
  has-erase, has-erase_self, has-set_insert, count-erase_le, count-set_insert, find-store_other,
  store-Distinct,
}
use uni_event_http.World.Entry.{
  hosts, EntryHolds, WorldHolds, changed-WorldHolds, hosts-Alone, busy-not_free,
}
use uni_event_http.World.Ask.{
  Assigned, reuses, creates, enqueues, assign-Assigned, asked_world, reuse-WorldHolds,
  create-WorldHolds, enqueue-WorldHolds, first-WorldHolds,
}

-- The world after a client came back to an entry.
unfoldable pub put_world : NetLoc → NetLocList → ℕ → Client → List (ℕ × ℕ) → World → World
put_world n l k c started w = record w {
  client = update w.client k c;
  pool = record w.pool { clients = store n l w.pool.clients; started = started };
}

module _ (default_port : Scheme → ℕ) where
  equal_self : (a : ℕ) → (a == a) ≡ true
  equal_self a = ground arith

  Assigned-WorldHolds :
      (n : NetLoc) (l : NetLocList) (r : Request) (w : World) (t : NetLocList × Option ℕ)
      → Assigned w.pool.next_client w.next_request l t
      → find n w.pool.clients ≡ some l
      → IsStartable default_port n r
      → WorldHolds default_port w
      → WorldHolds default_port (
          start_if default_port w.pool.next_client t.1 r
            (asked_world (store n t.0 w.pool.clients) t.1 r w))
  Assigned-WorldHolds n l r w t (reuses k rest e) f a s =
      subst
        (λ b. WorldHolds default_port (
          start_on default_port b k r (
            asked_world
              (store n (record l { free = rest; busy = set_insert k l.busy }) w.pool.clients)
              (some k) r w)))
        (sym old_client) (reuse-WorldHolds default_port n l k rest r w f e a s)
    where
      old_client : (k == w.pool.next_client) ≡ false
      old_client = ground (arith, (s.entries n l f).known k, e)
  Assigned-WorldHolds n l r w t (creates e) f a s =
      subst
        (λ b. WorldHolds default_port (
          start_on default_port b w.pool.next_client r (
            asked_world
              (store n (record l { busy = set_insert w.pool.next_client l.busy }) w.pool.clients)
              (some w.pool.next_client) r w)))
        (sym (equal_self w.pool.next_client)) (create-WorldHolds default_port n l r w f a s)
  Assigned-WorldHolds n l r w t enqueues f a s = enqueue-WorldHolds default_port n l r w f a s

  ask_at-WorldHolds :
      (n : NetLoc) (r : Request) (w : World)
      → IsStartable default_port n r
      → WorldHolds default_port w
      → WorldHolds default_port (ask_at default_port n r w)
  unfolding request asked_world
  ask_at-WorldHolds n r w a s = by_entry (find n w.pool.clients) refl
    where
      by_entry :
          (o : Option NetLocList)
          → find n w.pool.clients ≡ o
          → (let t = request_at n w.next_request o w.pool in
              WorldHolds default_port (
                start_if default_port w.pool.next_client t.1 r (record w {
                  pool = t.0;
                  object = update w.object w.next_request (enqueued r);
                  next_request = suc w.next_request;
                })))
      by_entry none e =
          subst
            (λ b. WorldHolds default_port (
              start_on default_port b w.pool.next_client r (
                asked_world
                  (w.pool.clients
                    ++ (n, record { free = []; busy = w.pool.next_client ∷ []; queue = [] }) ∷ [])
                  (some w.pool.next_client) r w)))
            (sym (equal_self w.pool.next_client)) (first-WorldHolds default_port n r w e a s)
      by_entry (some l) e =
          Assigned-WorldHolds n l r w
            (assign w.pool.max_connections w.pool.next_client w.next_request l)
            (assign-Assigned w.pool.max_connections w.pool.next_client w.next_request l) e a s

  pub ask-WorldHolds :
      (r : Request) (w : World)
      → IsPlain r
      → r.active ≡ false
      → WorldHolds default_port w
      → WorldHolds default_port (ask default_port r w).0
  unfolding ask
  ask-WorldHolds r w p i s = by_uri r.uri refl
    where
      by_uri :
          (u : Option Uri)
          → r.uri ≡ u
          → WorldHolds default_port (ask_checked default_port u (check_uri u) r w).0
      by_uri none e = absurd (unfold check_uri in ground (arith, p.hosted, e))
      by_uri (some u) e =
          subst (λ f. WorldHolds default_port (ask_checked default_port (some u) f r w).0)
            (sym (subst (λ o. check_uri o ≡ none) e p.hosted))
            (ask_at-WorldHolds (netloc default_port u r) r w
              (record {
                plain = p;
                located = ap (λ o. location_at default_port o r) e;
                inactive = i;
              })
              s)

  put-WorldHolds :
      (n : NetLoc) (l l' : NetLocList) (k : ℕ) (c : Client) (started : List (ℕ × ℕ)) (w : World)
      → find n w.pool.clients ≡ some l
      → hosts k l ≡ true
      → EntryHolds default_port n l' (put_world n l' k c started w)
      → WorldHolds default_port w
      → WorldHolds default_port (put_world n l' k c started w)
  unfolding put_world
  put-WorldHolds n l l' k c started w f h e s =
      changed-WorldHolds default_port k n l' w _
        (record {
          clients = λ j q. ground (arith, q);
          objects = λ i q. refl;
          more_clients = omega arith;
          more_requests = omega arith;
        })
        (hosts-Alone default_port k n l w f h s) (find-store_same n l l' w.pool.clients f)
        (λ m q. find-store_other n m l' w.pool.clients q)
        (store-Distinct n l' w.pool.clients s.distinct) s.faultless e s

  -- A client that stays where it is.
  pub kept-EntryHolds :
      (n : NetLoc) (l l' : NetLocList) (k : ℕ) (c : Client) (started : List (ℕ × ℕ)) (w : World)
      → l'.free ≡ l.free
      → l'.busy ≡ l.busy
      → ((i : ℕ) → has i l'.queue ≡ true → has i l.queue ≡ true)
      → (has k l.free ≡ true → Rests default_port n [] c)
      → (has k l.busy ≡ true → Serves default_port n [] c)
      → EntryHolds default_port n l w
      → EntryHolds default_port n l' (put_world n l' k c started w)
  unfolding put_world
  kept-EntryHolds n l l' k c started w x y q r v old = record {
    free = λ j h.
        if_elim (Rests default_port n []) (k == j) _ _ (λ e. r (ground (arith, h, e, x)))
          (λ _. old.free j (ground (arith, h, x)));
    busy = λ j h.
        if_elim (Serves default_port n []) (k == j) _ _ (λ e. v (ground (arith, h, e, y)))
          (λ _. old.busy j (ground (arith, h, y)));
    queue = λ i h. old.queue i (q i h);
    known = λ j h. old.known j (ground (arith, h, x, y));
    numbered = λ i h. old.numbered i (q i h);
    once_free = λ j. ground (arith, x, old.once_free j);
    once_busy = λ j. ground (arith, y, old.once_busy j);
  }

  freed-EntryHolds :
      (n : NetLoc) (l : NetLocList) (k : ℕ) (c : Client) (w : World)
      → has k l.busy ≡ true
      → Rests default_port n [] c
      → EntryHolds default_port n l w
      → (let l' = record l { busy = erase k l.busy; free = set_insert k l.free } in
          EntryHolds default_port n l' (put_world n l' k c w.pool.started w))
  unfolding put_world
  freed-EntryHolds n l k c w b a old = record {
    free = λ j h.
        if_elim (Rests default_port n []) (k == j) _ _ (λ _. a)
          (λ q. old.free j (has-set_insert j k l.free h q));
    busy = λ j h.
        if_elim (Serves default_port n []) (k == j) _ _
          (λ q. absurd (ground (arith, q, h, has-erase_self k l.busy (old.once_busy k))))
          (λ _. old.busy j (has-erase j k l.busy h));
    queue = old.queue;
    known = λ j h.
        ground
          (arith, h, b, old.known j, old.known k, has-set_insert j k l.free, has-erase j k l.busy);
    numbered = old.numbered;
    once_free = λ j.
        count-set_insert j k l.free (busy-not_free default_port k n l w old b) (old.once_free j);
    once_busy = λ j. omega (arith, count-erase_le j k l.busy, old.once_busy j);
  }

  -- The client of the location goes on with the first request that waits there, or is free.
  pub putback-WorldHolds :
      (n : NetLoc) (l : NetLocList) (k : ℕ) (c : Client) (w : World)
      → find n w.pool.clients ≡ some l
      → has k l.busy ≡ true
      → After default_port n [] (first_of l.queue w.object) c
      → WorldHolds default_port w
      → WorldHolds default_port
          (record w { client = update w.client k c; pool = putback n k w.pool })
  unfolding putback release put_world
  putback-WorldHolds n l k c w f b a s =
      subst (λ o. WorldHolds default_port (put_at o)) (sym f) (by_queue l.queue refl a)
    where
      put_at : Option NetLocList → World
      put_at o = record w { client = update w.client k c; pool = putback_at n k o w.pool }

      released : List ℕ → NetLocList × Option ℕ
      released q = elim q [
        | req ∷ queue ↦ (record l { queue = queue }, some req)
        | [] ↦ (record l { busy = erase k l.busy; free = set_insert k l.free }, none)
      ]

      old : EntryHolds default_port n l w
      old = s.entries n l f

      by_queue :
          (q : List ℕ)
          → l.queue ≡ q
          → After default_port n [] (first_of q w.object) c
          → WorldHolds default_port (record w {
            client = update w.client k c;
            pool =
                goes_on k
                  (released q).1
                  (has k l.busy)
                  (record w.pool { clients = store n (released q).0 w.pool.clients });
          })
      by_queue [] e r =
          subst
            (λ was_busy. WorldHolds default_port (record w {
              client = update w.client k c;
              pool =
                  goes_on k none was_busy
                    (record w.pool { clients = store n (released []).0 w.pool.clients });
            }))
            (sym b)
            (put-WorldHolds n l (released []).0 k c w.pool.started w f (ground (arith, b))
              (freed-EntryHolds n l k c w b r old) s)
      by_queue (i ∷ q) e v =
          put-WorldHolds n l (record l { queue = q }) k c ((k, i) ∷ w.pool.started) w f
            (ground (arith, b))
            (kept-EntryHolds n l (record l { queue = q }) k c ((k, i) ∷ w.pool.started) w refl refl
              (λ j h. ground (arith, e, h))
              (λ h. absurd (ground (arith, h, busy-not_free default_port k n l w old b))) (λ _. v)
              old)
            s
