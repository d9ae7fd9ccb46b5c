-- ===== src/Control/Daemon.antt =====
-- The daemon: its keys, the maps that it fills, and the database that it follows.
pub mod Key
pub mod NatMap
pub mod Listener
pub mod Load
pub mod Startup
pub mod Backoff
