-- ===== src/Codec/Laws.antt =====
-- Laws of the reader, and what they give for each message.
pub mod Reads
pub mod Proxy
pub mod Batch
pub mod Dns
pub mod Wire
pub mod Extends
pub mod Truncated
pub mod Sound
