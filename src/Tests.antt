-- ===== src/Tests.antt =====
-- Runs of the model on concrete inputs, and the theorems applied to them.
mod Fixtures
mod Vectors
mod Packets
mod Addresses
mod Services
mod Daemon
mod Crypto
mod Serving
mod Routing
mod Starting
mod Automation
