-- ===== src/World/Ask.antt =====
-- `Pool::request` (Pool.cc): what holds of a pool's entries and clients is kept.
use uni_event_http.Base.{
  ℕ, suc, ◌≡◌, refl, Bool, true, false, Option, none, some, List, [], ◌∷◌, ◌++◌, ◌==◌, ◌∙◌, arith,
  if◌then◌else◌, if_elim, update, ltb, length,
}
use uni_event_http.Pool.State.{NetLoc, NetLocList, has, find, store, set_insert, assign, started_on}
use uni_event_http.Client.State.{Scheme, Request, new_client}
use uni_event_http.Client.Request.{request as client_request}
use uni_event_http.World.Plain.{location_at_direct, IsStartable, Serves, Rests}
use uni_event_http.World.Outcome.{again-Serves}
use uni_event_http.World.State.{World, enqueued, start_on}
use uni_event_http.Pool.Location.{find-store_same}
use uni_event_http.World.Table.{
  has-set_insert, has-count, count-set_insert, find-store_other, find-append_here,
  find-append_other, store-Distinct, append-Distinct,
}
use uni_event_http.World.Entry.{
  hosts, EntryHolds, WorldHolds, Changes, changed-WorldHolds, hosts-Alone, new-Alone, free-not_busy,
  new-not_hosted,
}

-- What the pool does with a request at an entry that it has.
pub data Assigned (new req : ℕ) (l : NetLocList) : NetLocList × Option ℕ → Type 0 where
  reuses :
      (k : ℕ) (rest : List ℕ)
      → l.free ≡ k ∷ rest
      → Assigned new req l (record l { free = rest; busy = set_insert k l.busy }, some k)
  creates : l.free ≡ [] → Assigned new req l (record l { busy = set_insert new l.busy }, some new)
  enqueues : Assigned new req l (record l { queue = l.queue ++ req ∷ [] }, none)

pub assign-Assigned : (max new req : ℕ) (l : NetLocList) → Assigned new req l (assign max new req l)
unfolding assign
assign-Assigned max new req l = by_free l.free refl
  where
    by_free :
        (free : List ℕ)
        → l.free ≡ free
        → Assigned new req l (elim free [
          | client ∷ free' ↦
              (record l { free = free'; busy = set_insert client l.busy }, some client)
          | [] ↦
              if ltb (length l.busy) max
              then (record l { busy = set_insert new l.busy }, some new)
              else (record l { queue = l.queue ++ req ∷ [] }, none)
        ])
    by_free [] e =
        if_elim (Assigned new req l) (ltb (length l.busy) max) _ _ (λ _. creates e) (λ _. enqueues)
    by_free (k ∷ rest) e = reuses k rest e

has-append : (i j : ℕ) (s : List ℕ) → has i (s ++ j ∷ []) ≡ true → (j == i) ≡ false → has i s ≡ true
has-append i j [] h e = ground arith
has-append i j (a ∷ s) h e = ground (arith, has-append i j s)

-- The next request has come, which the client `k` gets or no client.
unfoldable pub asked_world : List (NetLoc × NetLocList) → Option ℕ → Request → World → World
asked_world t o r w = record w {
  pool = started_on w.next_request o (record w.pool { clients = t });
  object = update w.object w.next_request (enqueued r);
  next_request = suc w.next_request;
}

module _ (default_port : Scheme → ℕ) where
  enqueued-IsStartable :
      (n : NetLoc) (r : Request)
      → IsStartable default_port n r
      → IsStartable default_port n (enqueued r)
  enqueued-IsStartable n r s = record {
    plain = record {
      hosted = s.plain.hosted;
      schemed = s.plain.schemed;
      no_context = s.plain.no_context;
      no_proxy = s.plain.no_proxy;
      certified = s.plain.certified;
    };
    located =
        location_at_direct default_port r.uri (enqueued r) r s.plain.no_proxy s.plain.no_proxy refl
          refl
        ∙ s.located;
    inactive = s.inactive;
  }

  new-Serves :
      (n : NetLoc) (r : Request)
      → IsStartable default_port n r
      → Serves default_port n [] (client_request default_port r (new_client true)).0
  new-Serves n r s = again-Serves default_port n r (new_client true) refl refl refl s

  asked-Changes :
      (k : ℕ) (is_new : Bool) (t : List (NetLoc × NetLocList)) (r : Request) (w : World)
      → Changes default_port k w (start_on default_port is_new k r (asked_world t (some k) r w))
  unfolding asked_world
  asked-Changes k is_new t r w = record {
    clients = λ j h. ground (arith, h);
    objects = λ i h. ground (arith, h);
    more_clients = ground arith;
    more_requests = omega arith;
  }

  pub reuse-WorldHolds :
      (n : NetLoc) (l : NetLocList) (k : ℕ) (rest : List ℕ) (r : Request) (w : World)
      → find n w.pool.clients ≡ some l
      → l.free ≡ k ∷ rest
      → IsStartable default_port n r
      → WorldHolds default_port w
      → WorldHolds default_port (
          start_on default_port false k r (
            asked_world
              (store n (record l { free = rest; busy = set_insert k l.busy }) w.pool.clients)
              (some k)
              r
              w))
  unfolding asked_world
  reuse-WorldHolds n l k rest r w f e a s =
      changed-WorldHolds default_port k n l' w _ (asked-Changes k false _ r w)
        (hosts-Alone default_port k n l w f (ground (arith, e)) s)
        (find-store_same n l l' w.pool.clients f) (λ m h. find-store_other n m l' w.pool.clients h)
        (store-Distinct n l' w.pool.clients s.distinct) s.faultless
        (record {
          free = λ j h.
              if_elim (Rests default_port n []) (k == j) _ _
                (λ q. absurd (ground (arith, q, h, e, old.once_free k, has-count j rest)))
                (λ _. old.free j (ground (arith, e, h)));
          busy = λ j h.
              if_elim (Serves default_port n []) (k == j) _ _
                (λ _.
                  again-Serves default_port n r (w.client k) was.no_request was.pooled was.called a)
                (λ d. old.busy j (has-set_insert j k l.busy h d));
          queue = λ i h.
              if_elim (IsStartable default_port n) (w.next_request == i) _ _
                (λ q. absurd (ground (arith, q, old.numbered i h))) (λ _. old.queue i h);
          known = λ j h. ground (arith, h, e, old.known j, old.known k, has-set_insert j k l.busy);
          numbered = λ i h. omega (arith, old.numbered i h);
          once_free = λ j. ground (arith, e, old.once_free j);
          once_busy = λ j.
              count-set_insert j k l.busy
                (free-not_busy default_port k n l w old (ground (arith, e))) (old.once_busy j);
        })
        s
    where
      l' : NetLocList
      l' = record l { free = rest; busy = set_insert k l.busy }

      old : EntryHolds default_port n l w
      old = s.entries n l f

      was : Rests default_port n [] (w.client k)
      was = old.free k (ground (arith, e))

  pub create-WorldHolds :
      (n : NetLoc) (l : NetLocList) (r : Request) (w : World)
      → find n w.pool.clients ≡ some l
      → IsStartable default_port n r
      → WorldHolds default_port w
      → WorldHolds default_port (
          start_on default_port true w.pool.next_client r (
            asked_world
              (store n (record l { busy = set_insert w.pool.next_client l.busy }) w.pool.clients)
              (some w.pool.next_client)
              r
              w))
  unfolding asked_world
  create-WorldHolds n l r w f a s =
      changed-WorldHolds default_port w.pool.next_client n l' w _
        (asked-Changes w.pool.next_client true _ r w) (new-Alone default_port n w s)
        (find-store_same n l l' w.pool.clients f) (λ m h. find-store_other n m l' w.pool.clients h)
        (store-Distinct n l' w.pool.clients s.distinct) s.faultless
        (record {
          free = λ j h.
              if_elim (Rests default_port n []) (w.pool.next_client == j) _ _
                (λ q. absurd (ground (arith, q, h, new_here))) (λ _. old.free j h);
          busy = λ j h.
              if_elim (Serves default_port n []) (w.pool.next_client == j) _ _
                (λ _. new-Serves n r a)
                (λ d. old.busy j (has-set_insert j w.pool.next_client l.busy h d));
          queue = λ i h.
              if_elim (IsStartable default_port n) (w.next_request == i) _ _
                (λ q. absurd (ground (arith, q, old.numbered i h))) (λ _. old.queue i h);
          known = λ j h. ground (arith, h, old.known j, has-set_insert j w.pool.next_client l.busy);
          numbered = λ i h. omega (arith, old.numbered i h);
          once_free = old.once_free;
          once_busy = λ j.
              count-set_insert j w.pool.next_client l.busy (ground (arith, new_here))
                (old.once_busy j);
        })
        s
    where
      l' : NetLocList
      l' = record l { busy = set_insert w.pool.next_client l.busy }

      old : EntryHolds default_port n l w
      old = s.entries n l f

      new_here : hosts w.pool.next_client l ≡ false
      new_here = new-not_hosted default_port n l w old

  pub enqueue-WorldHolds :
      (n : NetLoc) (l : NetLocList) (r : Request) (w : World)
      → find n w.pool.clients ≡ some l
      → IsStartable default_port n r
      → WorldHolds default_port w
      → WorldHolds default_port (
          asked_world
            (store n (record l { queue = l.queue ++ w.next_request ∷ [] }) w.pool.clients)
            none
            r
            w)
  unfolding asked_world
  enqueue-WorldHolds n l r w f a s =
      changed-WorldHolds default_port w.pool.next_client n l' w _
        (record {
          clients = λ j h. refl;
          objects = λ i h. ground (arith, h);
          more_clients = omega arith;
          more_requests = omega arith;
        })
        (new-Alone default_port n w s) (find-store_same n l l' w.pool.clients f)
        (λ m h. find-store_other n m l' w.pool.clients h)
        (store-Distinct n l' w.pool.clients s.distinct) s.faultless
        (record {
          free = old.free;
          busy = old.busy;
          queue = λ i h.
              if_elim (IsStartable default_port n) (w.next_request == i) _ _
                (λ _. enqueued-IsStartable n r a)
                (λ q. old.queue i (has-append i w.next_request l.queue h q));
          known = old.known;
          numbered = λ i h. ground (arith, old.numbered i, has-append i w.next_request l.queue h);
          once_free = old.once_free;
          once_busy = old.once_busy;
        })
        s
    where
      l' : NetLocList
      l' = record l { queue = l.queue ++ w.next_request ∷ [] }

      old : EntryHolds default_port n l w
      old = s.entries n l f

  pub first-WorldHolds :
      (n : NetLoc) (r : Request) (w : World)
      → find n w.pool.clients ≡ none
      → IsStartable default_port n r
      → WorldHolds default_port w
      → WorldHolds default_port (
          start_on default_port true w.pool.next_client r (
            asked_world
              (w.pool.clients
                ++ (n, record { free = []; busy = w.pool.next_client ∷ []; queue = [] }) ∷ [])
              (some w.pool.next_client)
              r
              w))
  unfolding asked_world
  first-WorldHolds n r w f a s =
      changed-WorldHolds default_port w.pool.next_client n l' w _
        (asked-Changes w.pool.next_client true _ r w) (new-Alone default_port n w s)
        (find-append_here n l' w.pool.clients f) (λ m h. find-append_other n m l' w.pool.clients h)
        (append-Distinct n l' w.pool.clients f s.distinct) s.faultless
        (record {
          free = λ j h. absurd (ground (arith, h));
          busy = λ j h.
              if_elim (Serves default_port n []) (w.pool.next_client == j) _ _
                (λ _. new-Serves n r a) (λ q. absurd (ground (arith, h, q)));
          queue = λ i h. absurd (ground (arith, h));
          known = λ j h. ground (arith, h);
          numbered = λ i h. absurd (ground (arith, h));
          once_free = λ j. omega arith;
          once_busy = λ j. ground arith;
        })
        s
    where
      l' : NetLocList
      l' = record { free = []; busy = w.pool.next_client ∷ []; queue = [] }
