-- ===== src/Tls.antt =====
-- The store of TLS sessions, rvpn/crates/rvpn-tls/src/resumption.rs.
pub mod Rustls
pub mod Boring
pub mod Laws
mod Tests
