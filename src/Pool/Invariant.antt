-- ===== src/Pool/Invariant.antt =====
-- What holds of every entry of the pool's table, through every operation.
use uni_event_http.Base.{
  ℕ, ◌≤◌, ◌≡◌, refl, Bool, true, false, Option, none, some, arith, is_some, if_elim, sym, subst,
}
use uni_event_http.Pool.State.{
  NetLoc, NetLocList, Pool, has, find, assign, request, request_at, started_on, cancel_request,
  cancel_at, release, putback, putback_at, goes_on, check_inactivity, remove_time, set_idle_timeout,
  on_idle_timer, destroy,
}
use uni_event_http.Pool.Entry.{
  AllWithin, WithinIfFound, find-AllWithin, store-AllWithin, append-AllWithin,
  check_entries-AllWithin, assign-EntryWithin, release-EntryWithin, cancel-EntryWithin,
  new-EntryWithin,
}

-- The pool and its limit.
abbrev pub PoolWithin : (lo hi : ℕ) → Pool → Type 0
PoolWithin lo hi p = AllWithin lo hi p.clients × (lo ≤ p.max_connections) × (p.max_connections ≤ hi)

started_on-PoolWithin :
    (lo hi : ℕ) (req : ℕ) (o : Option ℕ) (p : Pool)
    → PoolWithin lo hi p
    → PoolWithin lo hi (started_on req o p)
started_on-PoolWithin lo hi req none p f = f
started_on-PoolWithin lo hi req (some client) p f = f

request-PoolWithin :
    (lo hi : ℕ) (n : NetLoc) (req : ℕ) (p : Pool)
    → PoolWithin lo hi p
    → PoolWithin lo hi (request n req p).0
unfolding request
request-PoolWithin lo hi n req p f =
    by_entry (find n p.clients) (find-AllWithin lo hi n p.clients f.0)
  where
    by_entry :
        (o : Option NetLocList) → WithinIfFound lo hi o → PoolWithin lo hi (request_at n req o p).0
    by_entry none g =
        (append-AllWithin lo hi n _ p.clients (new-EntryWithin lo hi p.next_client) f.0, f.1, f.2)
    by_entry (some l) g =
        started_on-PoolWithin lo hi req (assign p.max_connections p.next_client req l).1 _ (
          store-AllWithin lo hi n _ p.clients
              (assign-EntryWithin lo hi p.max_connections p.next_client req l f.1 f.2 g) f.0,
          f.1,
          f.2,
        )

cancel_request-PoolWithin :
    (lo hi : ℕ) (n : NetLoc) (req : ℕ) (p : Pool)
    → PoolWithin lo hi p
    → PoolWithin lo hi (cancel_request n req p)
unfolding cancel_request
cancel_request-PoolWithin lo hi n req p f =
    by_entry (find n p.clients) (find-AllWithin lo hi n p.clients f.0)
  where
    by_entry :
        (o : Option NetLocList) → WithinIfFound lo hi o → PoolWithin lo hi (cancel_at n req o p)
    by_entry none g = f
    by_entry (some l) g =
        if_elim (PoolWithin lo hi) (has req l.queue) _ _
          (λ _.
            (store-AllWithin lo hi n _ p.clients (cancel-EntryWithin lo hi req l g) f.0, f.1, f.2))
          (λ _. f)

-- A client is handed back under the location at which the pool holds it as busy.
abbrev pub BusyAt : ℕ → Option NetLocList → Type 0
BusyAt client none = Unit {0}
BusyAt client (some l) = has client l.busy ≡ true

goes_on-PoolWithin :
    (lo hi : ℕ) (client : ℕ) (o : Option ℕ) (b : Bool) (p : Pool)
    → PoolWithin lo hi p
    → PoolWithin lo hi (goes_on client o b p)
goes_on-PoolWithin lo hi client (some req) b p f = f
goes_on-PoolWithin lo hi client none true p f = f
goes_on-PoolWithin lo hi client none false p f = f

putback-PoolWithin :
    (lo hi : ℕ) (n : NetLoc) (client : ℕ) (p : Pool)
    → BusyAt client (find n p.clients)
    → PoolWithin lo hi p
    → PoolWithin lo hi (putback n client p)
unfolding putback
putback-PoolWithin lo hi n client p b f =
    by_entry (find n p.clients) b (find-AllWithin lo hi n p.clients f.0)
  where
    by_entry :
        (o : Option NetLocList)
        → BusyAt client o
        → WithinIfFound lo hi o
        → PoolWithin lo hi (putback_at n client o p)
    by_entry none h g = f
    by_entry (some l) h g =
        goes_on-PoolWithin lo hi client (release client l).1 (has client l.busy) _ (
          store-AllWithin lo hi n _ p.clients (release-EntryWithin lo hi client l h g) f.0,
          f.1,
          f.2,
        )

check_inactivity-PoolWithin :
    (lo hi : ℕ) (last : ℕ → ℕ) (now : ℕ) (p : Pool)
    → PoolWithin lo hi p
    → PoolWithin lo hi (check_inactivity last now p)
unfolding check_inactivity
check_inactivity-PoolWithin lo hi last now p f =
    (check_entries-AllWithin last (remove_time now p.idle_timeout) lo hi p.clients f.0, f.1, f.2)

-- What happens to a pool, as a relation: a client comes back only from where it is busy.
pub data Step (p : Pool) : Pool → Type 0 where
  requests : (n : NetLoc) (req : ℕ) → Step p (request n req p).0
  cancels : (n : NetLoc) (req : ℕ) → Step p (cancel_request n req p)
  puts_back :
      (n : NetLoc) (client : ℕ) → BusyAt client (find n p.clients) → Step p (putback n client p)
  destroys : Step p (destroy p)
  sets_timeout : (val : ℕ) → Step p (set_idle_timeout val p)
  fires : (last : ℕ → ℕ) (now : ℕ) → Step p (on_idle_timer last now p)
  checks : (last : ℕ → ℕ) (now : ℕ) → Step p (check_inactivity last now p)

pub data Reach (p : Pool) : Pool → Type 0 where
  here : Reach p p
  next : {q r : Pool} → Reach p q → Step q r → Reach p r

pub Step-PoolWithin : (lo hi : ℕ) {p q : Pool} → Step p q → PoolWithin lo hi p → PoolWithin lo hi q
Step-PoolWithin lo hi {p} (requests n req) f = request-PoolWithin lo hi n req p f
Step-PoolWithin lo hi {p} (cancels n req) f = cancel_request-PoolWithin lo hi n req p f
Step-PoolWithin lo hi {p} (puts_back n client b) f = putback-PoolWithin lo hi n client p b f
Step-PoolWithin lo hi {p} destroys f = unfold destroy in (tt, f.1, f.2)
Step-PoolWithin lo hi {p} (sets_timeout val) f = unfold set_idle_timeout in f
Step-PoolWithin lo hi {p} (fires last now) f =
    unfold on_idle_timer in
    if_elim (PoolWithin lo hi) (is_some p.idle_timer) _ _
      (λ _. check_inactivity-PoolWithin lo hi last now p f) (λ _. f)
Step-PoolWithin lo hi {p} (checks last now) f = check_inactivity-PoolWithin lo hi last now p f

-- No step but the setter's changes the limit.
Step-max_connections : {p q : Pool} → Step p q → q.max_connections ≡ p.max_connections
unfolding request cancel_request putback destroy set_idle_timeout on_idle_timer check_inactivity
Step-max_connections {p} (requests n req) = by_entry (find n p.clients)
  where
    by_start : (o : Option ℕ) (q : Pool) → (started_on req o q).max_connections ≡ q.max_connections
    by_start none q = refl
    by_start (some client) q = refl

    by_entry :
        (o : Option NetLocList) → (request_at n req o p).0.max_connections ≡ p.max_connections
    by_entry none = refl
    by_entry (some l) = by_start (assign p.max_connections p.next_client req l).1 _
Step-max_connections {p} (cancels n req) = by_entry (find n p.clients)
  where
    by_entry : (o : Option NetLocList) → (cancel_at n req o p).max_connections ≡ p.max_connections
    by_entry none = refl
    by_entry (some l) =
        if_elim (λ (q : Pool). q.max_connections ≡ p.max_connections) (has req l.queue) _ _
          (λ _. refl) (λ _. refl)
Step-max_connections {p} (puts_back n client b) = by_entry (find n p.clients)
  where
    by_next :
        (o : Option ℕ) (w : Bool) (q : Pool)
        → (goes_on client o w q).max_connections ≡ q.max_connections
    by_next (some req) w q = refl
    by_next none true q = refl
    by_next none false q = refl

    by_entry :
        (o : Option NetLocList) → (putback_at n client o p).max_connections ≡ p.max_connections
    by_entry none = refl
    by_entry (some l) = by_next (release client l).1 (has client l.busy) _
Step-max_connections {p} destroys = refl
Step-max_connections {p} (sets_timeout val) = refl
Step-max_connections {p} (fires last now) =
    if_elim (λ (q : Pool). q.max_connections ≡ p.max_connections) (is_some p.idle_timer) _ _
      (λ _. refl) (λ _. refl)
Step-max_connections {p} (checks last now) = refl

-- A pool whose limit was never changed.
abbrev pub PoolFits : Pool → Type 0
PoolFits p = AllWithin p.max_connections p.max_connections p.clients

pub Step-PoolFits : {p q : Pool} → Step p q → PoolFits p → PoolFits q
Step-PoolFits {p} {q} s f =
    subst (λ m. AllWithin m m q.clients) (sym (Step-max_connections s))
      (Step-PoolWithin p.max_connections p.max_connections s (f, omega arith, omega arith)).0
