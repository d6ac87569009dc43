-- ===== src/Ratchet/Laws.antt =====
-- What is proved of the ratchet.
pub mod Steps
pub mod Skipped
pub mod Channel
pub mod InOrder
pub mod Forged
pub mod InPlace
pub mod Borrowed
pub mod Split
pub mod Locks
