-- ===== src/Examples/Disk.antt =====
-- A medium in memory: every read and write succeeds.
use manifestus.Base.{
  ℕ, ◌+◌, ◌≡◌, ◌≢◌, ◌⊎◌, ◌∙◌, inl, inr, refl, true, false, List, [], ◌∷◌, length, Bool-cases, ◌==◌,
  ==_iff, if◌then◌else◌, arith,
}
use manifestus.Error.{ok}
use manifestus.Block.{Block, BlockDev}
use manifestus.Media.{Medium, run_at, Outside}
use manifestus.Ring.Opened.{IsHealthy}

abbrev pub Disk : Type 0
Disk = ℕ → Block

abbrev pub stored : ℕ → Block → Disk → Disk
stored lba b d j = if j == lba then b else d j

abbrev pub stored_run : ℕ → List Block → Disk → Disk
stored_run lba [] d = d
stored_run lba (b ∷ bs) d = stored_run (lba + 1) bs (stored lba b d)

abbrev pub all_at : Disk → List ℕ → List Block
all_at d [] = []
all_at d (l ∷ ls) = d l ∷ all_at d ls

abbrev pub disk : BlockDev Disk
disk = record {
  block_count = λ d. 64;
  read = λ lba d. (ok (d lba), d);
  write = λ lba b d. (ok tt, stored lba b d);
  write_run = λ lba bs d. (ok tt, stored_run lba bs d);
  read_run = λ lba n d. (ok (run_at d lba n), d);
  read_many = λ lbas d. (ok (all_at d lbas), d);
  discard = λ lba n d. (ok tt, d);
  flush = λ d. (ok tt, d);
  grow = λ n d. (ok tt, d);
}

pub stored-frame : (lba : ℕ) (b : Block) (d : Disk) (j : ℕ) → j ≢ lba → stored lba b d j ≡ d j
stored-frame lba b d j ne = go (Bool-cases (j == lba))
  where
    go : ((j == lba) ≡ true) ⊎ ((j == lba) ≡ false) → (if j == lba then b else d j) ≡ d j
    go (inl h) = absurd (ne ((==_iff j lba).0 h))
    go (inr h) = rw h refl

pub stored_run-frame :
    (lba : ℕ) (bs : List Block) (d : Disk) (j : ℕ)
    → Outside lba (length bs) j
    → stored_run lba bs d j ≡ d j
stored_run-frame lba [] d j h = refl
stored_run-frame lba (b ∷ bs) d j (inl h) =
    stored_run-frame (lba + 1) bs (stored lba b d) j (inl (omega arith))
    ∙ stored-frame lba b d j (omega arith)
stored_run-frame lba (b ∷ bs) d j (inr h) =
    stored_run-frame (lba + 1) bs (stored lba b d) j (inr (omega arith))
    ∙ stored-frame lba b d j (omega arith)

abbrev pub medium : Medium Disk
medium = record {
  dev = disk;
  view = λ d. d;
  read_keeps = λ lba d j. refl;
  read_answers = λ lba d. refl;
  read_run_keeps = λ lba n d j. refl;
  read_run_answers = λ lba n d. refl;
  flush_keeps = λ d j. refl;
  write_frame = stored-frame;
  write_run_frame = stored_run-frame;
}

pub medium-IsHealthy : IsHealthy medium
medium-IsHealthy lba d = (d, refl)

abbrev pub blank : Disk
blank j = []
