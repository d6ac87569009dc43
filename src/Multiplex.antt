-- ===== src/Multiplex.antt =====
-- The multiplexed frame protocol and the credit gate of
-- rvpn/crates/rvpn-core/src/protocol/multiplex.rs.
pub mod Frame
pub mod Credits
pub mod Waiting
pub mod Laws
mod Tests
