-- ===== src/Protocol.antt =====
-- crates/justdrop-protocol: the transfer state machine, messages, and both sides of a transfer.
pub mod State
pub mod Messages
pub mod Offsets
pub mod Link
pub mod Codec
pub mod Handshake
pub mod Prepare
pub mod Send
pub mod Receive
pub mod Transfer
pub mod MessagesV2
