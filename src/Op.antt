-- ===== src/Op.antt =====
-- The package op: the batch buffer and the streamers built on it.
pub mod Batch
pub mod Buffer
pub mod Streamer
pub mod Headers
pub mod Interface
pub mod Buffered
pub mod Derivation
