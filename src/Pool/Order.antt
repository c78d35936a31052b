-- ===== src/Pool/Order.antt =====
-- First come, first served: what waits at a location is started as the clients come back to the pool.
use uni_event_http.Base.{
  ℕ, suc, ◌≤◌, ◌≡◌, refl, Bool, true, false, Option, none, some, List, [], ◌∷◌, ◌∙◌, ap, subst, sym,
  arith, length,
}
use uni_event_http.Pool.State.{
  NetLoc, NetLocList, Pool, has, find, store, release, goes_on, putback, putback_at,
}
use uni_event_http.Pool.Location.{find-store_same}

-- The clients come back, one after the other.
pub putback_all : NetLoc → List ℕ → Pool → Pool
putback_all n [] p = p
putback_all n (client ∷ clients) p = putback_all n clients (putback n client p)

-- The log of started requests, the newest first, once each of the clients has started a request, the
-- first client the first request and so on.
abbrev pub paired : (clients reqs : List ℕ) → List (ℕ × ℕ) → List (ℕ × ℕ)
paired [] reqs log = log
paired (client ∷ clients) [] log = log
paired (client ∷ clients) (req ∷ reqs) log = paired clients reqs ((client, req) ∷ log)

-- No request waits at the location.
abbrev pub NoneWaits : NetLoc → Pool → Type 0
NoneWaits n p = (l : NetLocList) × (find n p.clients ≡ some l) × (l.queue ≡ [])

started_by : ℕ → Option ℕ → List (ℕ × ℕ) → List (ℕ × ℕ)
started_by client none log = log
started_by client (some req) log = (client, req) ∷ log

goes_on_lem :
    (client : ℕ) (o : Option ℕ) (b : Bool) (p : Pool)
    → ((goes_on client o b p).clients ≡ p.clients)
      × ((goes_on client o b p).started ≡ started_by client o p.started)
unfolding started_by
goes_on_lem client (some req) b p = (refl, refl)
goes_on_lem client none true p = (refl, refl)
goes_on_lem client none false p = (refl, refl)

putback-found :
    (n : NetLoc) (client : ℕ) (l : NetLocList) (p : Pool)
    → find n p.clients ≡ some l
    → let (l', req) = release client l in
      let q = putback n client p in
      (find n q.clients ≡ some l') × (q.started ≡ started_by client req p.started)
unfolding putback
putback-found n client l p e =
    subst
      (λ o.
        let q = putback_at n client o p in
        (find n q.clients ≡ some l') × (q.started ≡ started_by client req p.started))
      (sym e) (ap (find n) after.0 ∙ find-store_same n l l' p.clients e, after.1)
  where
    l' : NetLocList
    l' = (release client l).0

    req : Option ℕ
    req = (release client l).1

    after :
        let p' = record p { clients = store n l' p.clients } in
        let q = goes_on client req (has client l.busy) p' in
        (q.clients ≡ p'.clients) × (q.started ≡ started_by client req p.started)
    after = goes_on_lem client req (has client l.busy) _

release-length :
    (client : ℕ) (l : NetLocList) (n : ℕ)
    → length l.queue ≤ suc n
    → length (release client l).0.queue ≤ n
unfolding release
release-length client l n h = by_queue l.queue refl
  where
    by_queue : (q : List ℕ) → l.queue ≡ q → length (release client l).0.queue ≤ n
    by_queue [] e = ground arith
    by_queue (a ∷ q) e = ground arith

paired-none : (clients : List ℕ) (log : List (ℕ × ℕ)) → paired clients [] log ≡ log
paired-none [] log = refl
paired-none (client ∷ clients) log = refl

release-paired :
    (client : ℕ) (clients : List ℕ) (l : NetLocList) (log : List (ℕ × ℕ))
    → let (l', req) = release client l in
      paired clients l'.queue (started_by client req log) ≡ paired (client ∷ clients) l.queue log
unfolding release started_by
release-paired client clients l log = by_queue l.queue
  where
    by_queue :
        (q : List ℕ)
        → let (l', req) = release client (record l { queue = q }) in
          paired clients l'.queue (started_by client req log) ≡ paired (client ∷ clients) q log
    by_queue [] = paired-none clients log
    by_queue (a ∷ q) = refl

queue_empty : (q : List ℕ) → length q ≤ 0 → q ≡ []
queue_empty [] h = refl
queue_empty (a ∷ q) h = absurd (omega arith)

-- When at least as many clients have come back to a location of the pool as requests wait at it, none
-- waits there any more, and every one that waited was started, in its turn: the first of them on the
-- first client that came back, and so on; nothing else was started.
pub putback_all-drains :
    (n : NetLoc) (clients : List ℕ) (l : NetLocList) (p : Pool)
    → find n p.clients ≡ some l
    → length l.queue ≤ length clients
    → let q = putback_all n clients p in
      NoneWaits n q × (q.started ≡ paired clients l.queue p.started)
unfolding putback_all
putback_all-drains n [] l p e h = ((l, e, queue_empty l.queue h), refl)
putback_all-drains n (client ∷ clients) l p e h =
    let found = putback-found n client l p e in
    let l' = (release client l).0 in
    let rest =
      putback_all-drains n clients l' (putback n client p) found.0
        (release-length client l (length clients) h) in
    (
      rest.0,
      rest.1
          ∙ ap (λ log. paired clients l'.queue log) found.1
          ∙ release-paired client clients l p.started,
    )
