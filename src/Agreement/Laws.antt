-- ===== src/Agreement/Laws.antt =====
-- What is proved of the key agreement.
pub mod Agree
pub mod Session
