-- ===== src/Pool/History.antt =====
-- All that happens to a pool, the setter of `max_connections` (Pool.h) included, and the limits that it
-- had.
use uni_event_http.Base.{ℕ, ◌≤◌, List, [], ◌∷◌, arith, if◌then◌else◌, leb}
use uni_event_http.Pool.State.{
  NetLoc, NetLocList, Pool, new_pool, set_idle_timeout, set_max_connections,
}
use uni_event_http.Pool.Invariant.{PoolWithin, Step, Step-PoolWithin}
use uni_event_http.Pool.Entry.{AllWithin}

pub data History (p : Pool) : Pool → Type 0 where
  here : History p p
  operates : {q r : Pool} → History p q → Step q r → History p r
  sets_max : {q : Pool} → History p q → (value : ℕ) → History p (set_max_connections value q)

-- The least and the greatest of the limits that a pool had which began with the limit `max`.
unfoldable pub lowest : ℕ → {p q : Pool} → History p q → ℕ
lowest max here = max
lowest max (operates r s) = lowest max r
lowest max (sets_max r value) = let rest = lowest max r in if leb value rest then value else rest

unfoldable pub highest : ℕ → {p q : Pool} → History p q → ℕ
highest max here = max
highest max (operates r s) = highest max r
highest max (sets_max r value) = let rest = highest max r in if leb rest value then value else rest

widened :
    (lo hi lo' hi' : ℕ) (t : List (NetLoc × NetLocList))
    → lo' ≤ lo
    → hi ≤ hi'
    → AllWithin lo hi t
    → AllWithin lo' hi' t
widened lo hi lo' hi' [] a b f = tt
widened lo hi lo' hi' ((n, l) ∷ t) a b f = (
  record {
    populated = f.0.populated;
    none_idle = f.0.none_idle;
    all_busy = λ q. omega (arith, a, f.0.all_busy q);
    bounded = ground (arith, b, f.0.bounded);
  },
  widened lo hi lo' hi' t a b f.1,
)

-- In every state that a new pool can reach, also when its limit is changed in between, each location has
-- a client; it has at most as many clients, free and busy together, as the greatest limit that the pool
-- had (and one, if that is 0); and while a request waits at it, none of its clients is free and at least
-- as many are busy as the least limit that the pool had; the present limit lies between the two. (A
-- client comes back only from where it is busy.)
pub History-PoolWithin :
    (max timeout : ℕ) {p : Pool} (r : History (new_pool max timeout) p)
    → PoolWithin (lowest max r) (highest max r) p
unfolding new_pool set_idle_timeout set_max_connections lowest highest
History-PoolWithin max timeout here = (tt, omega arith, omega arith)
History-PoolWithin max timeout (operates r s) =
    Step-PoolWithin (lowest max r) (highest max r) s (History-PoolWithin max timeout r)
History-PoolWithin max timeout (sets_max r value) =
    let f = History-PoolWithin max timeout r in
    (
      widened (lowest max r) (highest max r) _ _ _ (ground arith) (ground arith) f.0,
      ground arith,
      ground arith,
    )
