-- ===== src/Codec.antt =====
-- The binary message codec of rvpn/crates/rvpn-core/src/protocol/codec.rs, with the message types of
-- protocol/message.rs.
pub mod Messages
pub mod Reader
pub mod Proxy
pub mod Batch
pub mod Dns
pub mod Wire
pub mod Laws
mod Tests
