-- ===== src/World.antt =====
-- The clients of a pool and the pool in one state (src/panda/unievent/http/Pool.cc, Client.cc).
pub mod Plain
pub mod Outcome
pub mod Redirect
pub mod Step
pub mod Table
pub mod Semaphore
pub mod State
pub mod Entry
pub mod Ask
pub mod Calls
pub mod Rest
pub mod Keep
pub mod Invariant
