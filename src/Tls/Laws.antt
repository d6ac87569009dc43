-- ===== src/Tls/Laws.antt =====
-- What is proved of the store of sessions.
pub mod Leak
pub mod Queued
pub mod Bounded
