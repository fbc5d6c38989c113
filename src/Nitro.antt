-- ===== src/Nitro.antt =====
-- The package nitro.
pub mod Bytes
pub mod Types
pub mod Debounce
pub mod Monitor
pub mod Codec
pub mod V0
pub mod V1
pub mod Binary
pub mod Payload
pub mod Streamer
pub mod Demo
