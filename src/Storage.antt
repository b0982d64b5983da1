-- ===== src/Storage.antt =====
-- crates/justdrop-storage: files in chunks, on the sending and on the receiving side.
pub mod Files
pub mod Resume
pub mod Writer
pub mod Chunker
pub mod Hashing
pub mod Compress
