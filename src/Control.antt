-- ===== src/Control.antt =====
-- The user-space services: the DNS server, the daemon, and the database that they share.
pub mod Run
pub mod Text
pub mod Number
pub mod Database
pub mod Dns
pub mod Daemon
pub mod Xtask
