-- ===== src/Pool.antt =====
-- The pool of client connections (src/panda/unievent/http/Pool.cc).
pub mod State
pub mod Entry
pub mod Invariant
pub mod History
pub mod Location
pub mod Order
pub mod Idle
pub mod Conservation
