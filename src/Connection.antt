-- ===== src/Connection.antt =====
-- A server's side of one HTTP connection (src/panda/unievent/http/ServerConnection.cc and the
-- request and response objects that it hands to the user).
pub mod State
pub mod Respond
pub mod Calls
pub mod Read
pub mod Loop
pub mod Order
pub mod Flow
pub mod Drop
pub mod Limits
pub mod Errors
pub mod Frames
pub mod Stuck
