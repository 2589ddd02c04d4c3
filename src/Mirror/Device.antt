-- ===== src/Mirror/Device.antt =====
-- src/mirror.rs, the free functions: one block or one batch written to one device and read back.
use manifestus.Base.{ℕ, zero, suc, ◌+◌, List, [], ◌∷◌, map, length, bytes_eq, ◌==◌, if◌then◌else◌}
use manifestus.Error.{Run, verify, stuck, ◌>>=◌, ◌>>◌, pure, throw, lift}
use manifestus.Block.{Block, BlockDev}

-- A block and where it goes.
abbrev pub Placed : Type 0
Placed = ℕ × Block

abbrev pub block_of : Placed → Block
block_of p = p.1

-- The batch cut where positions stop being consecutive: the slices that the ranges select.
abbrev pub attach_run : Placed → List (List Placed) → List (List Placed)
attach_run x [] = (x ∷ []) ∷ []
attach_run x ([] ∷ rs) = (x ∷ []) ∷ rs
attach_run x ((y ∷ r) ∷ rs) = if y.0 == x.0 + 1 then (x ∷ y ∷ r) ∷ rs else (x ∷ []) ∷ (y ∷ r) ∷ rs

unfoldable pub runs_of : List Placed → List (List Placed)
runs_of [] = []
runs_of (x ∷ xs) = attach_run x (runs_of xs)

-- `blocks[r.start].0`; a run is never empty.
abbrev pub run_start : List Placed → ℕ
run_start [] = 0
run_start (x ∷ r) = x.0

module _ {D : Type 0} (dev : BlockDev D) where
  -- The loop of `write_one`, with the attempts left.
  unfoldable pub write_attempts : ℕ → ℕ → Block → Run D (Unit {0})
  write_attempts zero lba buf = throw (verify lba)
  write_attempts (suc n) lba buf = do
    dev.write lba buf
    dev.flush
    got ← dev.read lba
    if bytes_eq got buf then pure tt else write_attempts n lba buf

  unfoldable pub write_one : ℕ → Block → Run D (Unit {0})
  unfolding write_attempts
  write_one lba buf = write_attempts 2 lba buf

  unfoldable pub write_runs : List (List Placed) → Run D (Unit {0})
  write_runs [] = pure tt
  write_runs (r ∷ rs) = do dev.write_run (run_start r) (map block_of r); write_runs rs

  -- A block of the batch against what came back; a mismatch is retried alone.
  unfoldable pub check_one : Placed → Block → Run D (Unit {0})
  unfolding write_one
  check_one p got = if bytes_eq got p.1 then pure tt else write_one p.0 p.1

  unfoldable pub check_run : List Placed → List Block → Run D (Unit {0})
  unfolding check_one
  check_run [] back = pure tt
  check_run (p ∷ r) [] = lift stuck
  check_run (p ∷ r) (got ∷ back) = do check_one p got; check_run r back

  unfoldable pub verify_runs : List (List Placed) → Run D (Unit {0})
  unfolding check_run
  verify_runs [] = pure tt
  verify_runs (r ∷ rs) = do
    back ← dev.read_run (run_start r) (length r)
    check_run r back
    verify_runs rs

  unfoldable pub write_each : List Placed → Run D (Unit {0})
  unfolding write_runs verify_runs runs_of
  write_each blocks = do write_runs (runs_of blocks); dev.flush; verify_runs (runs_of blocks)
