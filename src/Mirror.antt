-- ===== src/Mirror.antt =====
-- src/mirror.rs: write, verify, then mirror.
pub mod Device
pub mod Verify
pub mod Placed
pub mod Batch
pub mod State
pub mod Ops
pub mod Reads
pub mod Front
pub mod Sorted
pub mod Drain
pub mod Stable
pub mod Taken
