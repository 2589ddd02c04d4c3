-- ===== src/Vault.antt =====
-- src/vault.rs: the vault. Of it, the live set, the rollback fence, the derivation of the reap, the
-- layout and the verified writes of replication, the heartbeat and the migration of the spine.
pub mod Live
pub mod Fence
pub mod Clean
pub mod Grown
pub mod Layout
pub mod Solo
pub mod State
pub mod Moved
pub mod Retired
