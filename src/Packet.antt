-- ===== src/Packet.antt =====
-- IP packets, rvpn/crates/rvpn-core/src/protocol/packet.rs.
pub mod Ip
pub mod Rewrite
pub mod Laws
mod Tests
mod RewriteTests
