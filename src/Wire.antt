-- ===== src/Wire.antt =====
-- server/internal/proudnet: the byte formats of the protocol.
pub mod Varint
pub mod Bytes
pub mod Read
pub mod Frame
pub mod Text
pub mod Cipher
pub mod Rmi
pub mod Handshake
mod Runs
