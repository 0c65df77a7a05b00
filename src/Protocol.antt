-- ===== src/Protocol.antt =====
-- crates/protocol: parsing and serialisation of SOCKS5 messages, with no input or output.
pub mod Constants
pub mod Error
pub mod Reader
pub mod Host
pub mod Handshake
pub mod Auth
pub mod Command
pub mod Request
pub mod Reply
mod Tests
