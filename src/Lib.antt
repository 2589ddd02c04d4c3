-- ===== src/Lib.antt =====
-- manifestus, a crash-safe key-value vault on two mirrored block devices. A spine ring of commit
-- entries (src/ring.rs) names the root of an index (src/hamt.rs), whose nodes and values stand in a
-- log, the tract (src/tract.rs). All three reach the devices through the mirror (src/mirror.rs),
-- which writes, reads back and compares; the vault (src/vault.rs) composes them, sets the rollback
-- fence and reaps dead space.
--
-- Error, Events, Block     src/error.rs, src/events.rs and the trait of src/block.rs. A method on
--                          `&mut self` is a `Run S A`: a function from the state to a result and the
--                          state after it, errors included. `stuck` is a panic, or fuel that ran out.
-- Media                    what the engine may rely on of a device.
-- Mirror/Device, Mirror/State, Mirror/Ops, Mirror/Reads
--                          src/mirror.rs: `write_one` and `write_each`, the struct, its writes, its
--                          reads. The rest of Mirror/ has the theorems on them; Mirror/Stable says
--                          what it is that readers see a fixed content.
-- Ring/Codec               vsf and blake3, which the repository only calls: a parameter, with the laws
--                          the code relies on in `IsLawful`.
-- Ring/Document, Ring/Entry
--                          the sealed block of named fields, `SpineEntry` and `classify`.
-- Ring/Search, Ring/State  the bisection for the head, and `struct Ring` with its methods.
-- Ring/Root                the root ring of the migrating profile, and the whole-file scan.
-- Tract                    src/tract.rs: the cursors, `append_with` and its guards, the reads.
-- Hamt/Runs, Hamt/Walk, Hamt/Leaf, Hamt/Doc
--                          src/hamt.rs: `check_runs`, `expand_runs`, `compress_runs`; the chunks of a key
--                          and `Visited`; the blocks of the index, written and decoded.
-- Hamt/State, Hamt/Trie    `struct Hamt`; its walks and copy-on-write edits, over any way to read the
--                          document that a pointer names.
-- Hamt/Store, Hamt/Put, Hamt/Repoint, Hamt/Scan, Hamt/Visit, Hamt/Mend
--                          `lookup` and `delete`; `put` and `flush`; the index repair; the tree walk in
--                          steps; the walks of the live blocks and of the keys; the repair walk; all
--                          over the tract. The rest of Hamt/ has the theorems: those on the walks of
--                          Hamt/Trie hold for any steady reads, and Hamt/Steady shows that the
--                          engine's reads are, on healthy devices; Hamt/Engine puts the two together.
-- Vault/Live, Vault/Fence, Vault/Layout
--                          src/vault.rs: `LiveSet`, `fence_from`, `derive_reap`, the realignment in
--                          `grow`, `best_gen` and `resolve_layout`.
-- Vault/Solo, Vault/State  the verified writes of replication; the vault without its index, its
--                          heartbeat generation and the migration of the spine.
-- Inspect, Host            src/inspect.rs: the commit chain and the counts; src/host.rs: the bounds.
-- Examples                 a disk in memory, a codec that obeys the laws, and the theorems at them.
--
-- Numbers are natural numbers. The sums of the code stay below 2^64: the decoder refuses an entry
-- whose plow and tract length do not fit, and addresses are bounded by a device's length; where the
-- code masks or casts, the remainder is written out. Bytes of a block are numbers, and the length of a
-- block is a matter of what is written. Loops recurse on what they consume, on the attempts left, or on
-- fuel: the bisection on the length of its range, the field loop on the length of the block, a descent
-- of the index on the 53 levels that its depth allows, the tree walk on the positions it can reach.
--
-- Not modelled: the reap of a window in the index; the vault's commit and put ladders and
-- `replicate_into`; file I/O and locking (src/host.rs); the inspector's tree walk and text
-- (src/inspect.rs), and the tools of src/bin.
pub mod Base
pub mod Error
pub mod Events
pub mod Block
pub mod Media
pub mod Mirror
pub mod Ring
pub mod Tract
pub mod Hamt
pub mod Vault
pub mod Inspect
pub mod Host
pub mod Examples
