-- ===== src/Security.antt =====
-- crates/justdrop-security: the encrypted session after the handshake, and the session keys.
pub mod Session
pub mod Crypto
pub mod Handshake
pub mod Keys
