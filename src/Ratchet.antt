-- ===== src/Ratchet.antt =====
-- The Double Ratchet of rvpn/crates/rvpn-core/src/crypto/ratchet.rs.
pub mod Primitives
pub mod State
pub mod Receive
pub mod InPlace
pub mod Borrowed
pub mod Split
pub mod Locks
pub mod Laws
pub mod Toy
mod Tests
mod SplitTests
