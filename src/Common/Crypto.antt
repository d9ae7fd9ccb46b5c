-- ===== src/Common/Crypto.antt =====
-- The primitives of common/src/crypto.rs other than the context hash.
pub mod Prince
pub mod Sip
