-- ===== src/Ffi.antt =====
-- crates/justdrop-ffi: what the Swift and Kotlin applications call.
pub mod Types
pub mod Bridge
pub mod Engine
pub mod Legacy
