-- ===== src/Server/Laws.antt =====
-- What is proved of the server's TUN side.
pub mod Counts
pub mod Leases
pub mod Sessions
pub mod Held
pub mod Sticky
