-- ===== src/Examples.antt =====
-- Concrete devices, a concrete codec, and the runs of the model at them.
mod Disk
mod Toy
mod Spine
mod Log
mod Writes
mod Walks
mod Content
mod Engine
mod Index
