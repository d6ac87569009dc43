-- ===== src/Multiplex/Laws.antt =====
-- What is proved of the frames and of the credit gate.
pub mod Frames
pub mod Stream
pub mod Reassembly
pub mod Gate
pub mod Waiting
