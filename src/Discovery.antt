-- ===== src/Discovery.antt =====
-- crates/justdrop-discovery: devices found by mDNS. A string that is cut up is the list of the bytes of
-- its UTF-8, and one that is only compared is a string.
pub mod Hex
pub mod Browser
pub mod Registrar
