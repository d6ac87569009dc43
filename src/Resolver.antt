-- ===== src/Resolver.antt =====
-- The resolver of names, rvpn/crates/rvpn-split-tunnel/src/dns_cache.rs.
pub mod Cache
pub mod Wire
pub mod Laws
pub mod Answers
mod Tests
