-- ===== src/Net.antt =====
-- The network side of the server: throttle, messages, ciphers and connections.
pub mod Throttle
pub mod Message
pub mod Xtea
pub mod Checksum
pub mod Protocol
pub mod Connection
pub mod Server
