-- ===== src/Tests.antt =====
-- Concrete inputs on which the theorems apply.
mod Core
mod Storage
mod Protocol
mod Transfer
mod Engine
mod Network
mod Security
mod Hashing
mod Discovery
mod Handshake
mod Formats
mod Delivery
mod Keys
mod Sendfile
mod Unary
mod Ffi
mod Transport
mod Naming
