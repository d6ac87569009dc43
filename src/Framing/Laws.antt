-- ===== src/Framing/Laws.antt =====
-- What is proved of the framings.
pub mod Counter
pub mod Encrypted
pub mod Padding
