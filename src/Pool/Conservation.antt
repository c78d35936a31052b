-- ===== src/Pool/Conservation.antt =====
-- No request is lost and none is started twice: each that came is started, notified of its
-- cancellation, or still waits.
use uni_event_http.Base.{
  ℕ, ◌+◌, ◌≡◌, refl, Bool, true, false, ◌&&◌, Option, none, some, List, [], ◌∷◌, ◌++◌, ◌==◌, arith,
  if◌then◌else◌, is_empty, is_some, if_elim,
}
use uni_event_http.Pool.State.{
  NetLoc, NetLocList, Pool, erase, has, find, store, assign, request, request_at, started_on,
  cancel_request, cancel_at, release, putback, putback_at, goes_on, drop_inactive, check_entries,
  check_inactivity, remove_time, new_pool, set_idle_timeout, set_max_connections, on_idle_timer,
  destroy, all_queued, notify_all,
}
use uni_event_http.Pool.Invariant.{
  Step, requests, cancels, puts_back, destroys, sets_timeout, fires, checks,
}
use uni_event_http.Pool.Entry.{AllWithin}
use uni_event_http.Pool.History.{
  History, here, operates, sets_max, lowest, highest, History-PoolWithin,
}

abbrev pub one : ℕ → ℕ → ℕ
one a b = if b == a then 1 else 0

abbrev pub count : ℕ → List ℕ → ℕ
count a [] = 0
count a (b ∷ s) = one a b + count a s

abbrev count_started : ℕ → List (ℕ × ℕ) → ℕ
count_started a [] = 0
count_started a ((client, req) ∷ s) = one a req + count_started a s

abbrev count_waiting : ℕ → List (NetLoc × NetLocList) → ℕ
count_waiting a [] = 0
count_waiting a ((n, l) ∷ t) = count a l.queue + count_waiting a t

-- How often the request was started, was notified of its cancellation, or waits.
abbrev pub accounted : ℕ → Pool → ℕ
accounted a p = count_started a p.started + count a p.cancelled + count_waiting a p.clients

count-append : (a : ℕ) (s t : List ℕ) → count a (s ++ t) ≡ count a s + count a t
count-append a [] t = omega arith
count-append a (b ∷ s) t = omega (arith, count-append a s t)

pub count-erase :
    (a b : ℕ) (s : List ℕ) → has b s ≡ true → count a (erase b s) + one a b ≡ count a s
unfolding erase
count-erase a b [] h = cc
count-erase a b (c ∷ s) h = ground (arith, count-erase a b s)

count-notify_all :
    (a : ℕ) (s before : List ℕ) → count a (notify_all s before) ≡ count a s + count a before
unfolding notify_all
count-notify_all a [] before = omega arith
count-notify_all a (b ∷ s) before = omega (arith, count-notify_all a s (b ∷ before))

count-all_queued :
    (a : ℕ) (t : List (NetLoc × NetLocList)) → count a (all_queued t) ≡ count_waiting a t
unfolding all_queued
count-all_queued a [] = refl
count-all_queued a ((n, l) ∷ t) =
    omega (arith, count-append a l.queue (all_queued t), count-all_queued a t)

waiting-store :
    (a : ℕ) (n : NetLoc) (l l' : NetLocList) (t : List (NetLoc × NetLocList))
    → find n t ≡ some l
    → count_waiting a (store n l' t) + count a l.queue ≡ count_waiting a t + count a l'.queue
unfolding find store
waiting-store a n l l' [] e = cc
waiting-store a n l l' ((k, m) ∷ t) e = ground (arith, waiting-store a n l l' t)

waiting-append :
    (a : ℕ) (n : NetLoc) (l : NetLocList) (t : List (NetLoc × NetLocList))
    → count_waiting a (t ++ (n, l) ∷ []) ≡ count_waiting a t + count a l.queue
waiting-append a n l [] = omega arith
waiting-append a n l ((k, m) ∷ t) = omega (arith, waiting-append a n l t)

-- What a call starts.
abbrev count_call : ℕ → ℕ → Option ℕ → ℕ
count_call a req none = 0
count_call a req (some client) = one a req

abbrev count_next : ℕ → Option ℕ → ℕ
count_next a none = 0
count_next a (some req) = one a req

assign-count :
    (a max new req : ℕ) (l : NetLocList)
    → let r = assign max new req l in
      count a r.0.queue + count_call a req r.1 ≡ count a l.queue + one a req
unfolding assign
assign-count a max new req l = ground (arith, count-append a l.queue (req ∷ []))

release-count :
    (a client : ℕ) (l : NetLocList)
    → let r = release client l in count a r.0.queue + count_next a r.1 ≡ count a l.queue
unfolding release
release-count a client l = ground arith

-- An entry that is taken out has no request in its queue.
check_entries-count :
    (a : ℕ) (last : ℕ → ℕ) (r lo hi : ℕ) (t : List (NetLoc × NetLocList))
    → AllWithin lo hi t
    → count_waiting a (check_entries last r t) ≡ count_waiting a t
unfolding check_entries
check_entries-count a last r lo hi [] f = refl
check_entries-count a last r lo hi ((n, l) ∷ t) f =
    let rest = check_entries-count a last r lo hi t f.1 in
    if_elim
      (λ (z : List (NetLoc × NetLocList)). count_waiting a z ≡ count a l.queue + count_waiting a t)
      (is_empty (drop_inactive last r l.free) && is_empty l.busy) _ _
      (λ h. omega (arith, rest, queue_empty h)) (λ _. omega (arith, rest))
  where
    queue_empty :
        (is_empty (drop_inactive last r l.free) && is_empty l.busy) ≡ true → count a l.queue ≡ 0
    queue_empty h = by_queue l.queue refl
      where
        by_queue : (q : List ℕ) → l.queue ≡ q → count a q ≡ 0
        by_queue [] e = refl
        by_queue (b ∷ q) e = absurd (ground (arith, f.0.none_idle, f.0.populated, h))

-- The requests that came in a step.
unfoldable pub asked_by : {p q : Pool} → Step p q → List ℕ
asked_by (requests n req) = req ∷ []
asked_by _ = []

started_on-accounted :
    (a req : ℕ) (o : Option ℕ) (p : Pool)
    → accounted a (started_on req o p) ≡ accounted a p + count_call a req o
started_on-accounted a req none p = omega arith
started_on-accounted a req (some client) p = omega arith

request-accounted :
    (a : ℕ) (n : NetLoc) (req : ℕ) (p : Pool)
    → accounted a (request n req p).0 ≡ accounted a p + one a req
unfolding request
request-accounted a n req p = by_entry (find n p.clients) refl
  where
    by_entry :
        (o : Option NetLocList)
        → find n p.clients ≡ o
        → accounted a (request_at n req o p).0 ≡ accounted a p + one a req
    by_entry none e = omega (
      arith,
      waiting-append a n (record { free = []; busy = p.next_client ∷ []; queue = [] }) p.clients,
    )
    by_entry (some l) e =
        let r = assign p.max_connections p.next_client req l in
        omega (
          arith,
          started_on-accounted a req r.1 (record p { clients = store n r.0 p.clients }),
          waiting-store a n l r.0 p.clients e,
          assign-count a p.max_connections p.next_client req l,
        )

cancel_request-accounted :
    (a : ℕ) (n : NetLoc) (req : ℕ) (p : Pool) → accounted a (cancel_request n req p) ≡ accounted a p
unfolding cancel_request
cancel_request-accounted a n req p = by_entry (find n p.clients) refl
  where
    by_entry :
        (o : Option NetLocList)
        → find n p.clients ≡ o
        → accounted a (cancel_at n req o p) ≡ accounted a p
    by_entry none e = refl
    by_entry (some l) e =
        if_elim (λ (q : Pool). accounted a q ≡ accounted a p) (has req l.queue) _ _
          (λ h. omega (
            arith,
            waiting-store a n l (record l { queue = erase req l.queue }) p.clients e,
            count-erase a req l.queue h,
          ))
          (λ _. refl)

goes_on-accounted :
    (a client : ℕ) (o : Option ℕ) (b : Bool) (p : Pool)
    → accounted a (goes_on client o b p) ≡ accounted a p + count_next a o
goes_on-accounted a client (some req) b p = omega arith
goes_on-accounted a client none true p = omega arith
goes_on-accounted a client none false p = omega arith

putback-accounted :
    (a : ℕ) (n : NetLoc) (client : ℕ) (p : Pool) → accounted a (putback n client p) ≡ accounted a p
unfolding putback
putback-accounted a n client p = by_entry (find n p.clients) refl
  where
    by_entry :
        (o : Option NetLocList)
        → find n p.clients ≡ o
        → accounted a (putback_at n client o p) ≡ accounted a p
    by_entry none e = refl
    by_entry (some l) e =
        let r = release client l in
        omega (
          arith,
          goes_on-accounted a client r.1 (has client l.busy)
              (record p { clients = store n r.0 p.clients }),
          waiting-store a n l r.0 p.clients e,
          release-count a client l,
        )

check_inactivity-accounted :
    (a lo hi : ℕ) (last : ℕ → ℕ) (now : ℕ) (p : Pool)
    → AllWithin lo hi p.clients
    → accounted a (check_inactivity last now p) ≡ accounted a p
unfolding check_inactivity
check_inactivity-accounted a lo hi last now p f =
    omega (arith, check_entries-count a last (remove_time now p.idle_timeout) lo hi p.clients f)

Step-accounted :
    (a lo hi : ℕ) {p q : Pool} (s : Step p q)
    → AllWithin lo hi p.clients
    → accounted a q ≡ accounted a p + count a (asked_by s)
unfolding asked_by
Step-accounted a lo hi {p} (requests n req) f = omega (arith, request-accounted a n req p)
Step-accounted a lo hi {p} (cancels n req) f = omega (arith, cancel_request-accounted a n req p)
Step-accounted a lo hi {p} (puts_back n client b) f = omega (arith, putback-accounted a n client p)
Step-accounted a lo hi {p} destroys f =
    unfold destroy in
    omega
      (arith, count-notify_all a (all_queued p.clients) p.cancelled, count-all_queued a p.clients)
Step-accounted a lo hi {p} (sets_timeout val) f = unfold set_idle_timeout in omega arith
Step-accounted a lo hi {p} (fires last now) f =
    unfold on_idle_timer in
    if_elim (λ (q : Pool). accounted a q ≡ accounted a p + 0) (is_some p.idle_timer) _ _
      (λ _. omega (arith, check_inactivity-accounted a lo hi last now p f)) (λ _. omega arith)
Step-accounted a lo hi {p} (checks last now) f =
    omega (arith, check_inactivity-accounted a lo hi last now p f)

-- The requests that came, the last one first.
unfoldable pub asked_in : {p q : Pool} → History p q → List ℕ
asked_in here = []
asked_in (operates r s) = asked_by s ++ asked_in r
asked_in (sets_max r value) = asked_in r

-- No request is lost and none is used twice: in every state that a new pool can reach, also when its
-- limit is changed in between or it is destroyed, a request was started, was notified of its
-- cancellation or waits, together exactly as often as it came. (A client comes back only from where it
-- is busy.)
pub History-accounted :
    (max timeout : ℕ) {p : Pool} (r : History (new_pool max timeout) p) (a : ℕ)
    → accounted a p ≡ count a (asked_in r)
unfolding new_pool asked_in set_max_connections
History-accounted max timeout here a = refl
History-accounted max timeout (operates r s) a = omega (
  arith,
  Step-accounted a (lowest max r) (highest max r) s (History-PoolWithin max timeout r).0,
  History-accounted max timeout r a,
  count-append a (asked_by s) (asked_in r),
)
History-accounted max timeout (sets_max r value) a = History-accounted max timeout r a
