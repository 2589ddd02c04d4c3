-- ===== src/Ring.antt =====
-- src/ring.rs: the spine ring.
pub mod Codec
pub mod Document
pub mod Entry
pub mod Sealed
pub mod Readback
pub mod Size
pub mod Roundtrip
pub mod Wire
pub mod Search
pub mod Newest
pub mod Bisect
pub mod State
pub mod Append
pub mod Opened
pub mod Root
pub mod Migrated
