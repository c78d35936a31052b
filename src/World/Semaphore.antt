-- ===== src/World/Semaphore.antt =====
-- What the pool promises for each location (Pool.h, Pool.cc): a semaphore. At most so many requests are
-- served at once, and the others are served in their turn when one ends.
pub mod Numbered
pub mod Table
pub mod Refines
pub mod Run
use uni_event_http.Base.{
  ℕ, suc, ◌-◌, Bool, Option, none, some, List, [], ◌∷◌, ◌++◌, ltb, if◌then◌else◌, length,
}
use uni_event_http.Pool.State.{NetLoc, NetLocList, netloc_eq, erase}

-- How many requests are served, and which wait, the oldest first.
pub record Semaphore : Type 0 where
  pub held : ℕ
  pub waiting : List ℕ

abbrev pub idle : Semaphore
idle = record { held = 0; waiting = [] }

-- A request comes: the first part of the result is served, or waits.
abbrev pub arrive : (capacity req : ℕ) → Semaphore → Semaphore × List ℕ
arrive capacity req s =
    if ltb s.held capacity
    then (record s { held = suc s.held }, req ∷ [])
    else (record s { waiting = s.waiting ++ req ∷ [] }, [])

-- A request ends, and the one that waits longest takes its place.
abbrev next_turn : List ℕ → Semaphore → Semaphore × List ℕ
next_turn [] s = (record s { held = s.held - 1 }, [])
next_turn (req ∷ rest) s = (record s { waiting = rest }, req ∷ [])

abbrev pub leave : Semaphore → Semaphore × List ℕ
leave s = next_turn s.waiting s

-- A request gives up waiting.
abbrev pub withdraw : ℕ → Semaphore → Semaphore
withdraw req s = record s { waiting = erase req s.waiting }

-- What is asked of the pool. The clients are not told apart.
pub data PoolCall : Type 0 where
  ask withdraws : NetLoc → ℕ → PoolCall
  ends : NetLoc → PoolCall
  shut_down tick : PoolCall

-- A semaphore for each location, and the requests that were served, the newest first.
pub record Semaphores : Type 0 where
  pub at : NetLoc → Semaphore
  pub served : List ℕ

abbrev pub idle_semaphores : Semaphores
idle_semaphores = record { at = λ n. idle; served = [] }

abbrev pub set_at : NetLoc → Semaphore × List ℕ → Semaphores → Semaphores
set_at n r s = record { at = λ m. if netloc_eq n m then r.0 else s.at m; served = r.1 ++ s.served }

unfoldable pub perform : ℕ → PoolCall → Semaphores → Semaphores
perform capacity (ask n req) s = set_at n (arrive capacity req (s.at n)) s
perform capacity (withdraws n req) s = set_at n (withdraw req (s.at n), []) s
perform capacity (ends n) s = set_at n (leave (s.at n)) s
perform capacity shut_down s = record s { at = λ n. idle }
perform capacity tick s = s

-- The newest call comes first.
unfoldable pub perform_all : ℕ → List PoolCall → Semaphores
perform_all capacity [] = idle_semaphores
perform_all capacity (k ∷ ks) = perform capacity k (perform_all capacity ks)

-- The semaphore that an entry of the table stands for.
abbrev pub seen : Option NetLocList → Semaphore
seen none = idle
seen (some l) = record { held = length l.busy; waiting = l.queue }
