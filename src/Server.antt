-- ===== src/Server.antt =====
-- The server that owns the connections (src/panda/unievent/http/Server.cc).
pub mod Config
pub mod Lifecycle
pub mod Stop
pub mod Invariant
pub mod Date
