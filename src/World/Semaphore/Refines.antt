-- ===== src/World/Semaphore/Refines.antt =====
-- Every operation of the pool does at its location what the semaphore does.
use uni_event_http.Base.{
  ℕ, ◌≡◌, refl, Bool, true, false, Option, none, some, List, [], ◌∷◌, ◌++◌, arith, if◌then◌else◌,
  sym, ap, subst, length, ◌∙◌, if_elim,
}
use uni_event_http.Pool.State.{
  NetLoc, NetLocList, Pool, erase, has, find, store, netloc_eq, assign, release, request,
  request_at, started_on, cancel_request, cancel_at, putback, putback_at, goes_on,
}
use uni_event_http.Pool.Invariant.{PoolFits, BusyAt}
use uni_event_http.Pool.Entry.{WithinIfFound, find-AllWithin, limit}
use uni_event_http.World.Table.{Distinct, store-Distinct, append-Distinct}
use uni_event_http.World.Semaphore.{
  Semaphore, Semaphores, idle, arrive, leave, withdraw, seen, set_at,
}
use uni_event_http.World.Semaphore.Numbered.{
  IsNumbered, next_after, assign-IsNumbered, release-IsNumbered,
}
use uni_event_http.World.Semaphore.Table.{
  AllNumbered, NumberedIfFound, started_one, started_next, assign-seen, release-seen, erase_missing,
  store-seen, append-seen, same-seen, find-AllNumbered, later-AllNumbered, store-AllNumbered,
  append-AllNumbered,
}

-- The requests of the log.
unfoldable pub requests_of : List (ℕ × ℕ) → List ℕ
requests_of [] = []
requests_of ((client, req) ∷ s) = req ∷ requests_of s

pub record Refines (max : ℕ) (p : Pool) (s : Semaphores) : Type 0 where
  pub kept : p.max_connections ≡ max
  pub fits : PoolFits p
  pub distinct : Distinct p.clients
  pub numbered : AllNumbered p.next_client p.clients
  pub sees : (n : NetLoc) → seen (find n p.clients) ≡ s.at n
  pub serves : requests_of p.started ≡ s.served

-- The pool after a call at a location, and what the call started.
pub record Changed (n : NetLoc) (r : Semaphore × List ℕ) (p q : Pool) : Type 0 where
  kept : q.max_connections ≡ p.max_connections
  distinct : Distinct q.clients
  numbered : AllNumbered q.next_client q.clients
  sees :
      (m : NetLoc)
      → seen (find m q.clients) ≡ (if netloc_eq n m then r.0 else seen (find m p.clients))
  serves : requests_of q.started ≡ r.1 ++ requests_of p.started

pub set_at-Refines :
    (max : ℕ) (n : NetLoc) (r : Semaphore × List ℕ) (p q : Pool) (s : Semaphores)
    → PoolFits q
    → Changed n r p q
    → Refines max p s
    → Refines max q (set_at n r s)
set_at-Refines max n r p q s f c v = record {
  kept = c.kept ∙ v.kept;
  fits = f;
  distinct = c.distinct;
  numbered = c.numbered;
  sees = λ m. c.sees m ∙ ap (λ z. if netloc_eq n m then r.0 else z) (v.sees m);
  serves = c.serves ∙ ap (λ z. r.1 ++ z) v.serves;
}

taken :
    (n : NetLoc) (req : ℕ) (o : Option ℕ) (x : Semaphore) (p : Pool)
    (t : List (NetLoc × NetLocList))
    → AllNumbered (next_after p.next_client o) t
    → Distinct t
    → ((m : NetLoc) → seen (find m t) ≡ (if netloc_eq n m then x else seen (find m p.clients)))
    → Changed n (x, started_one req o) p (started_on req o (record p { clients = t }))
unfolding requests_of
taken n req none x p t v d f = record {
  kept = refl;
  distinct = d;
  numbered = v;
  sees = f;
  serves = refl;
}
taken n req (some client) x p t v d f = record {
  kept = refl;
  distinct = d;
  numbered = v;
  sees = f;
  serves = refl;
}

new-IsNumbered :
    (new : ℕ)
    → IsNumbered (next_after new (some new)) (record { free = []; busy = new ∷ []; queue = [] })
new-IsNumbered new = record { once = λ a. ground arith; given = λ a h. ground (arith, h) }

pub request-Changed :
    (n : NetLoc) (req : ℕ) (p : Pool)
    → PoolFits p
    → Distinct p.clients
    → AllNumbered p.next_client p.clients
    → Changed n
        (arrive (limit p.max_connections) req (seen (find n p.clients)))
        p
        (request n req p).0
unfolding request
request-Changed n req p f d v =
    by_entry (find n p.clients) refl
      (find-AllWithin p.max_connections p.max_connections n p.clients f)
      (find-AllNumbered p.next_client n p.clients v)
  where
    by_entry :
        (o : Option NetLocList)
        → find n p.clients ≡ o
        → WithinIfFound p.max_connections p.max_connections o
        → NumberedIfFound p.next_client o
        → Changed n (arrive (limit p.max_connections) req (seen o)) p (request_at n req o p).0
    by_entry none e g w =
        subst (λ c. Changed n c p (request_at n req none p).0) first
          (taken n req (some p.next_client) (seen (some l)) p (p.clients ++ (n, l) ∷ [])
            (append-AllNumbered _ n l p.clients (new-IsNumbered p.next_client)
              (later-AllNumbered p.next_client (some p.next_client) p.clients v))
            (append-Distinct n l p.clients e d) (λ m. append-seen n m l p.clients e))
      where
        l : NetLocList
        l = record { free = []; busy = p.next_client ∷ []; queue = [] }

        first :
            ◌≡◌ {A = Semaphore × List ℕ}
              (record { held = 1; waiting = [] }, req ∷ [])
              (arrive (limit p.max_connections) req idle)
        first = ground arith
    by_entry (some l) e g w =
        let r = assign p.max_connections p.next_client req l in
        subst (λ c. Changed n c p (request_at n req (some l) p).0)
          (assign-seen p.max_connections p.next_client req l g w)
          (taken n req r.1 (seen (some r.0)) p (store n r.0 p.clients)
            (store-AllNumbered _ n r.0 p.clients
              (assign-IsNumbered p.max_connections p.next_client req l w)
              (later-AllNumbered p.next_client r.1 p.clients v))
            (store-Distinct n r.0 p.clients d) (λ m. store-seen n m l r.0 p.clients e))

given_back :
    (n : NetLoc) (client : ℕ) (o : Option ℕ) (b : Bool) (x : Semaphore) (p : Pool)
    (t : List (NetLoc × NetLocList))
    → AllNumbered p.next_client t
    → Distinct t
    → ((m : NetLoc) → seen (find m t) ≡ (if netloc_eq n m then x else seen (find m p.clients)))
    → Changed n (x, started_next o) p (goes_on client o b (record p { clients = t }))
unfolding requests_of
given_back n client (some req) b x p t v d f = record {
  kept = refl;
  distinct = d;
  numbered = v;
  sees = f;
  serves = refl;
}
given_back n client none true x p t v d f = record {
  kept = refl;
  distinct = d;
  numbered = v;
  sees = f;
  serves = refl;
}
given_back n client none false x p t v d f = record {
  kept = refl;
  distinct = d;
  numbered = v;
  sees = f;
  serves = refl;
}

pub putback-Changed :
    (n : NetLoc) (client : ℕ) (p : Pool)
    → BusyAt client (find n p.clients)
    → Distinct p.clients
    → AllNumbered p.next_client p.clients
    → Changed n (leave (seen (find n p.clients))) p (putback n client p)
unfolding putback
putback-Changed n client p b d v =
    by_entry (find n p.clients) refl b (find-AllNumbered p.next_client n p.clients v)
  where
    by_entry :
        (o : Option NetLocList)
        → find n p.clients ≡ o
        → BusyAt client o
        → NumberedIfFound p.next_client o
        → Changed n (leave (seen o)) p (putback_at n client o p)
    by_entry none e h w = record {
      kept = refl;
      distinct = d;
      numbered = v;
      sees = λ m.
          same-seen n m p.clients
          ∙ ap (λ o. if netloc_eq n m then seen o else seen (find m p.clients)) e;
      serves = refl;
    }
    by_entry (some l) e h w =
        let r = release client l in
        subst (λ c. Changed n c p (putback_at n client (some l) p)) (release-seen client l h)
          (given_back n client r.1 (has client l.busy) (seen (some r.0)) p (store n r.0 p.clients)
            (store-AllNumbered _ n r.0 p.clients (release-IsNumbered p.next_client client l h w) v)
            (store-Distinct n r.0 p.clients d) (λ m. store-seen n m l r.0 p.clients e))

pub cancel_request-Changed :
    (n : NetLoc) (req : ℕ) (p : Pool)
    → Distinct p.clients
    → AllNumbered p.next_client p.clients
    → Changed n (withdraw req (seen (find n p.clients)), []) p (cancel_request n req p)
unfolding cancel_request erase
cancel_request-Changed n req p d v =
    by_entry (find n p.clients) refl (find-AllNumbered p.next_client n p.clients v)
  where
    by_entry :
        (o : Option NetLocList)
        → find n p.clients ≡ o
        → NumberedIfFound p.next_client o
        → Changed n (withdraw req (seen o), []) p (cancel_at n req o p)
    by_entry none e w = record {
      kept = refl;
      distinct = d;
      numbered = v;
      sees = λ m.
          same-seen n m p.clients
          ∙ ap (λ o. if netloc_eq n m then seen o else seen (find m p.clients)) e;
      serves = refl;
    }
    by_entry (some l) e w =
        if_elim (Changed n (withdraw req (seen (some l)), []) p) (has req l.queue) _ _
          (λ _. record {
            kept = refl;
            distinct = store-Distinct n (record l { queue = erase req l.queue }) p.clients d;
            numbered =
                store-AllNumbered _ n (record l { queue = erase req l.queue }) p.clients
                  (record { once = w.once; given = w.given }) v;
            sees = λ m. store-seen n m l (record l { queue = erase req l.queue }) p.clients e;
            serves = refl;
          })
          (λ h. record {
            kept = refl;
            distinct = d;
            numbered = v;
            sees = λ m.
                same-seen n m p.clients
                ∙ ap (λ o. if netloc_eq n m then seen o else seen (find m p.clients)) e
                ∙ ap
                    (λ q.
                      if netloc_eq n m
                      then record { held = length l.busy; waiting = q }
                      else seen (find m p.clients))
                    (sym (erase_missing req l.queue h));
            serves = refl;
          })
