-- ===== src/Ble.antt =====
-- crates/justdrop-ble: what is broadcast, and what is exchanged before a connection.
pub mod Advertisement
pub mod Handshake
pub mod Hotspot
