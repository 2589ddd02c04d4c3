-- ===== src/Hamt.antt =====
-- src/hamt.rs: the index. Of it, the extent runs of a large value, the chunks of a key, the record
-- of a walk and the blocks as they are written.
pub mod Runs
pub mod Extent
pub mod Walk
pub mod Leaf
pub mod Doc
pub mod Written
pub mod WrittenRuns
pub mod WrittenNode
pub mod State
pub mod Trie
pub mod Store
pub mod Put
pub mod Repoint
pub mod Scan
pub mod Visit
pub mod Reported
pub mod Once
pub mod Mend
pub mod Mends
pub mod Mended
pub mod Retire
pub mod Steady
pub mod Recorded
pub mod Led
pub mod Engine
pub mod Keys
pub mod Seek
pub mod Frame
pub mod Edit
pub mod Split
pub mod Separated
pub mod Diverged
pub mod Below
pub mod Entered
pub mod Insert
pub mod Index
pub mod Unlinked
