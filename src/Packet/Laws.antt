-- ===== src/Packet/Laws.antt =====
-- What is proved of IP packets.
pub mod Checksum
pub mod Created
pub mod Updated
pub mod Rewritten
pub mod Adjusted
pub mod Transport
pub mod Segments
