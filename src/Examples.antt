-- ===== src/Examples.antt =====
-- Runs of the model, and each general statement at an input.
mod Connections
mod Servers
mod Clients
mod Worlds
mod Waits
mod Pools
