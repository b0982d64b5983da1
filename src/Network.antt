-- ===== src/Network.antt =====
-- crates/justdrop-network: the framed connection.
pub mod Frames
pub mod Connector
pub mod Sendfile
pub mod Listener
