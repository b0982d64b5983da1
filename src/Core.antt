-- ===== src/Core.antt =====
-- The types of crates/justdrop-core: transfers, trust, configuration.
pub mod Types
pub mod Trust
pub mod Database
pub mod Config
pub mod KeyFiles
pub mod Identity
