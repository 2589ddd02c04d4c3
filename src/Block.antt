-- ===== src/Block.antt =====
-- src/block.rs: a block is its bytes, and a device is a state with the trait's methods.
use manifestus.Base.{ℕ, ◌^◌, ◌+◌, List, [], ◌∷◌, zero, suc, replicate}
use manifestus.Error.{corrupt, Run, ◌>>=◌, ◌>>◌, pure, throw}

abbrev pub block_bytes : ℕ
block_bytes = 2 ^ 12

abbrev pub Block : Type 0
Block = List ℕ

unfoldable pub zero_block : Block
zero_block = replicate block_bytes 0

pub record BlockDev (D : Type 0) : Type 0 where
  pub block_count : D → ℕ
  pub read : ℕ → Run D Block
  pub write : ℕ → Block → Run D (Unit {0})
  pub write_run : ℕ → List Block → Run D (Unit {0})
  pub read_run : ℕ → ℕ → Run D (List Block)
  pub read_many : List ℕ → Run D (List Block)
  pub discard : ℕ → ℕ → Run D (Unit {0})
  pub flush : Run D (Unit {0})
  pub grow : ℕ → Run D (Unit {0})

-- The trait's default methods, over the methods that a device must have.
module _ {D : Type 0} (write : ℕ → Block → Run D (Unit {0})) where
  unfoldable pub write_run_default : ℕ → List Block → Run D (Unit {0})
  write_run_default lba [] = pure tt
  write_run_default lba (b ∷ bs) = write lba b >> write_run_default (lba + 1) bs

module _ {D : Type 0} (read : ℕ → Run D Block) where
  unfoldable pub read_run_default : ℕ → ℕ → Run D (List Block)
  read_run_default lba zero = pure []
  read_run_default lba (suc n) = do b ← read lba; bs ← read_run_default (lba + 1) n; pure (b ∷ bs)

  unfoldable pub read_many_default : List ℕ → Run D (List Block)
  read_many_default [] = pure []
  read_many_default (lba ∷ lbas) = do b ← read lba; bs ← read_many_default lbas; pure (b ∷ bs)

abbrev pub discard_default : {D : Type 0} → ℕ → ℕ → Run D (Unit {0})
discard_default lba count = pure tt

abbrev pub grow_default : {D : Type 0} → ℕ → Run D (Unit {0})
grow_default new_blocks = throw (corrupt "device does not support grow")
