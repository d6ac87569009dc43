-- ===== src/Agreement.antt =====
-- The X3DH key agreement, rvpn/crates/rvpn-core/src/crypto/x3dh.rs.
pub mod X3dh
pub mod Laws
mod Tests
