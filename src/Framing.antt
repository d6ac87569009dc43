-- ===== src/Framing.antt =====
-- The three framings of rvpn/crates/rvpn-core/src: the encrypted frames of
-- protocol/length_framing.rs, the padding of protocol/padding.rs and that of frame_padding.rs.
pub mod Nonce
pub mod LengthFraming
pub mod PacketPadding
pub mod FramePadding
pub mod Laws
mod Tests
