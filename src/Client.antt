-- ===== src/Client.antt =====
-- The client side of one connection (src/panda/unievent/http/Client.cc, Request.h, Request.icc).
pub mod Form
pub mod State
pub mod Request
pub mod Redirect
pub mod Read
pub mod Finish
pub mod Idle
pub mod Build
pub mod FormOrder
pub mod Resend
pub mod Follow
