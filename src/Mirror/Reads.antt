-- ===== src/Mirror/Reads.antt =====
-- src/mirror.rs, the reads of `Mirror` and its plain accessors.
use manifestus.Base.{
  ℕ, ◌+◌, min, Bool, false, ◌&&◌, ◌||◌, Option, none, some, is_some, List, [], ◌∷◌, leb, ltb,
  if◌then◌else◌,
}
use manifestus.Error.{Run, ok, ◌>>=◌}
use manifestus.Block.{Block, BlockDev, read_run_default, read_many_default}
use manifestus.Mirror.Device.{Placed}
use manifestus.Mirror.State.{Mirror, staged, last_at, cached_at, touch, insert_entry, evict}
use manifestus.Mirror.Ops.{first_healthy}

-- Whether a run of `n` blocks from `lba` meets a staged append.
unfoldable pub meets_run : ℕ → ℕ → List Placed → Bool
meets_run lba n [] = false
meets_run lba n (p ∷ ps) = (leb lba p.0 && ltb p.0 (lba + n)) || meets_run lba n ps

module _ {A B : Type 0} (devA : BlockDev A) (devB : BlockDev B) where
  -- A staged append reads as staged.
  unfoldable pub read : ℕ → Run (Mirror A B) Block
  unfolding first_healthy staged last_at
  read lba m = elim (last_at lba (staged m.pending)) [
    | some b ↦ (ok b, m)
    | none ↦ first_healthy (devA.read lba) (devB.read lba) m
  ]

  -- The miss: the block read is kept, in place of the least recently used when the cache is full.
  unfoldable pub read_missed : ℕ → Run (Mirror A B) Block
  unfolding read evict insert_entry
  read_missed lba = do
    b ← read lba
    λ m. (
      ok b,
      record m {
        cache = insert_entry (record { lba = lba; used = m.uses; contents = b }) (evict m.cache);
      },
    )

  unfoldable pub read_cached : ℕ → Run (Mirror A B) Block
  unfolding read_missed cached_at touch staged last_at
  read_cached lba m = elim (last_at lba (staged m.pending)) [
    | some b ↦ (ok b, m)
    | none ↦ elim (cached_at lba m.cache) [
      | some b ↦ (ok b, record m { uses = m.uses + 1; cache = touch lba (m.uses + 1) m.cache })
      | none ↦ read_missed lba (record m { uses = m.uses + 1 })
    ]
  ]

  unfoldable pub read_run : ℕ → ℕ → Run (Mirror A B) (List Block)
  unfolding meets_run read first_healthy
  read_run lba n m =
      if meets_run lba n (staged m.pending)
      then read_run_default read lba n m
      else first_healthy (devA.read_run lba n) (devB.read_run lba n) m

  unfoldable pub read_many : List ℕ → Run (Mirror A B) (List Block)
  unfolding read first_healthy
  read_many lbas m = elim m.pending [
    | [] ↦ first_healthy (devA.read_many lbas) (devB.read_many lbas) m
    | x ∷ r ↦ read_many_default read lbas m
  ]

  -- Smallest capacity across present devices.
  unfoldable pub block_count : Mirror A B → ℕ
  block_count m = elim m.a [
    | some a ↦ elim m.b [
      | some b ↦ min (devA.block_count a) (devB.block_count b)
      | none ↦ devA.block_count a
    ]
    | none ↦ elim m.b [ some b ↦ devB.block_count b | none ↦ 0 ]
  ]

module _ {A B : Type 0} where
  abbrev pub has_a : Mirror A B → Bool
  has_a m = is_some m.a

  abbrev pub has_b : Mirror A B → Bool
  has_b m = is_some m.b

  -- Raw access may write: nothing cached survives it.
  unfoldable pub devices : Mirror A B → (Option A × Option B) × Mirror A B
  devices m = ((m.a, m.b), record m { cache = [] })
