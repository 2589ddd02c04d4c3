-- ===== src/Media.antt =====
-- What the engine may rely on of a device (src/block.rs, the trait's contract): its medium as a
-- function of the address. A read that succeeds answers what the medium holds and leaves it; a
-- write, successful or not, leaves every other address; whether it stored its block is not said.
use manifestus.Base.{ℕ, ◌≡◌, ◌+◌, ◌<◌, ◌≤◌, ◌≢◌, ◌⊎◌, List, [], ◌∷◌, zero, suc, length}
use manifestus.Error.{Result, ok, err, stuck}
use manifestus.Block.{Block, BlockDev}

-- The blocks at `lba`, `lba + 1`, ...
abbrev pub run_at : (ℕ → Block) → ℕ → ℕ → List Block
run_at view lba zero = []
run_at view lba (suc n) = view lba ∷ run_at view (lba + 1) n

abbrev pub Outside : ℕ → ℕ → ℕ → Type 0
Outside lba n j = (j < lba) ⊎ (lba + n ≤ j)

abbrev pub Answers : {A : Type 0} → Result A → A → Type 0
Answers (ok a) b = a ≡ b
Answers (err e) b = Unit {0}
Answers stuck b = Unit {0}

pub record Medium (D : Type 0) : Type 0 where
  pub dev : BlockDev D
  pub open dev use *
  pub view : D → ℕ → Block
  pub read_keeps : (lba : ℕ) (d : D) (j : ℕ) → view (dev.read lba d).1 j ≡ view d j
  pub read_answers : (lba : ℕ) (d : D) → Answers (dev.read lba d).0 (view d lba)
  pub read_run_keeps : (lba n : ℕ) (d : D) (j : ℕ) → view (dev.read_run lba n d).1 j ≡ view d j
  pub read_run_answers :
      (lba n : ℕ) (d : D) → Answers (dev.read_run lba n d).0 (run_at (view d) lba n)
  pub flush_keeps : (d : D) (j : ℕ) → view (dev.flush d).1 j ≡ view d j
  pub write_frame :
      (lba : ℕ) (b : Block) (d : D) (j : ℕ) → j ≢ lba → view (dev.write lba b d).1 j ≡ view d j
  pub write_run_frame :
      (lba : ℕ) (bs : List Block) (d : D) (j : ℕ)
      → Outside lba (length bs) j
      → view (dev.write_run lba bs d).1 j ≡ view d j
