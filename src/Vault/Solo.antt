-- ===== src/Vault/Solo.antt =====
-- src/vault.rs, `write_verified_one` and `write_verified_batch_solo`: the verified writes of
-- replication, on one device.
use manifestus.Base.{ℕ, List, [], ◌∷◌, length, bytes_eq, if◌then◌else◌}
use manifestus.Error.{Run, ◌>>=◌, ◌>>◌, pure}
use manifestus.Block.{Block, BlockDev}
use manifestus.Mirror.Device.{Placed, write_attempts}

module _ {D : Type 0} (dev : BlockDev D) where
  -- The same loop as the mirror's: two attempts.
  unfoldable pub write_verified_one : ℕ → Block → Run D (Unit {0})
  unfolding write_attempts
  write_verified_one lba buf = write_attempts dev 2 lba buf

  unfoldable pub write_all : List Placed → Run D (Unit {0})
  write_all [] = pure tt
  write_all (p ∷ ps) = do dev.write p.0 p.1; write_all ps

  unfoldable pub check_all : List Placed → Run D (Unit {0})
  unfolding write_verified_one
  check_all [] = pure tt
  check_all (p ∷ ps) = do
    got ← dev.read p.0
    if bytes_eq got p.1 then pure tt else write_verified_one p.0 p.1
    check_all ps

  unfoldable pub write_verified_batch_solo : List Placed → Run D ℕ
  unfolding write_all check_all
  write_verified_batch_solo [] = pure 0
  write_verified_batch_solo (p ∷ ps) = do
    write_all (p ∷ ps)
    dev.flush
    check_all (p ∷ ps)
    pure (length (p ∷ ps))
