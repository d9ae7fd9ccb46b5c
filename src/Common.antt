-- ===== src/Common.antt =====
-- The crate `common`, shared by the packet programs and the user-space services.
pub mod Contract
pub mod Types
pub mod Address
pub mod HashCtx
pub mod Crypto
pub mod ProxySrc
