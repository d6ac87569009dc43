-- ===== src/Routing.antt =====
-- Which server a flow takes, rvpn/crates/rvpn-split-tunnel/src/router.rs.
pub mod Patterns
pub mod Router
pub mod Engine
pub mod Laws
mod Tests
mod EngineTests
