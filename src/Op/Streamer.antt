-- ===== src/Op/Streamer.antt =====
-- `BatchStreamer` of op/op_streamer.go: its state, its operations, and what they guarantee.
pub mod Deps
pub mod State
pub mod Refresh
pub mod Check
pub mod Valid
pub mod Head
pub mod Fetch
pub mod Update
pub mod Instance
pub mod Calls
pub mod Demo
mod Tests
