-- ===== src/Network.antt =====
-- The network layer: messages and the bytes in them, their encryption and the protocol's framing.
pub mod Message
pub mod Xtea
pub mod Adler
pub mod Output
pub mod Protocol
pub mod Connection
