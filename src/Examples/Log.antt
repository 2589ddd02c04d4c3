-- ===== src/Examples/Log.antt =====
-- The theorems on the tract, the fence, the reap and the extents, at a tract of eight blocks.
use manifestus.Base.{
  ◌++◌, ℕ, ◌+◌, ◌-◌, ◌≡◌, ◌≢◌, ◌≤◌, ◌<◌, refl, true, false, none, some, List, [], ◌∷◌, length,
  get_elem?, arith,
}
use manifestus.Error.{ok, is_ok}
use manifestus.Block.{Block}
use manifestus.Mirror.State.{Mirror}
use manifestus.Tract.{Tract, no_live, clean_blocks, place, lapped, places, append_with, read}
use manifestus.Tract.Append.{staged_at}
use manifestus.Tract.Placed.{
  IsWellFormed, WithinFence, append-keeps, append-stages, append-refused, append-read,
}
use manifestus.Vault.Retired.{apply-retires}
use manifestus.Vault.Live.{lookup, apply, is_referenced, LiveSet, positions}
use manifestus.Vault.Fence.{fence_from, least_of, realign}
use manifestus.Vault.Clean.{Member, NoneAhead, derived, derive_reap-clean, append-within_budgets}
use manifestus.Vault.Grown.{realign-grown}
use manifestus.Hamt.Runs.{
  expand_runs, check_runs, check_from, expand_all, run_positions, compress_runs,
}
use manifestus.Hamt.Extent.{AllBelow, expand_runs-bounded, expand_all-compress_runs}
use manifestus.Inspect.{count_runs}
use manifestus.Inspect.Agree.{counted_total, checked_total, count_runs-check_runs}
use manifestus.Examples.Disk.{Disk, disk, blank}

abbrev one_disk : Mirror Disk Disk
one_disk = record {
  a = some blank;
  b = none;
  degraded = true;
  events = [];
  pending = [];
  cache = [];
  uses = 0;
}

abbrev two_blocks : ℕ → Block
two_blocks i = i ∷ []

-- The plow stands one block before the end of the tract: the append wraps.
abbrev tract : Tract
tract = record { base = 4; len = 8; plow = 7; reap = 5; fence_limit = some 9 }

abbrev written : Tract × Mirror Disk Disk
written = (append_with no_live 2 two_blocks (tract, one_disk)).1

wraps : append_with no_live 2 two_blocks (tract, one_disk) ≡ (ok (7 ∷ 0 ∷ []), written)
unfolding append_with clean_blocks lapped places
wraps = refl

tract-IsWellFormed : IsWellFormed tract
tract-IsWellFormed = record { reaped = omega arith; bounded = omega arith }

append-keeps_example :
    IsWellFormed written.0
    × (written.0 ≡ record tract { plow = 7 + 2 })
    × WithinFence written.0.fence_limit written.0.plow
    × ((k : ℕ) → k < 2 → no_live.is_referenced (place tract k) ≡ false)
append-keeps_example =
    append-keeps no_live 2 two_blocks tract written.0 one_disk written.1 (7 ∷ 0 ∷ [])
      tract-IsWellFormed wraps

append-stages_example :
    ((k : ℕ)
      → k < 2
      → (get_elem? (7 ∷ 0 ∷ []) k ≡ some (place tract k))
        × (staged_at (4 + place tract k) written.1 ≡ some (two_blocks k)))
    × ((x : ℕ)
        → ((k : ℕ) → k < 2 → 4 + place tract k ≢ x)
        → staged_at x written.1 ≡ staged_at x one_disk)
append-stages_example =
    append-stages no_live 2 two_blocks tract written.0 one_disk written.1 (7 ∷ 0 ∷ []) wraps

append-read_example : read disk disk written.0 (place tract 1) written.1 ≡ (ok (1 ∷ []), written.1)
append-read_example =
    append-read disk disk no_live 2 two_blocks tract written.0 one_disk written.1 (7 ∷ 0 ∷ []) 1
      (omega arith) (omega arith) wraps

-- A third block would pass the fence.
over_fence : is_ok (append_with no_live 3 two_blocks (tract, one_disk)).0 ≡ false
unfolding append_with clean_blocks
over_fence = refl

append-refused_example :
    ((append_with no_live 3 two_blocks (tract, one_disk)).1.0 ≡ tract)
    × (record (append_with no_live 3 two_blocks (tract, one_disk)).1.1 { events = [] } ≡ one_disk)
append-refused_example = append-refused no_live 3 two_blocks tract one_disk over_fence

abbrev budgets : List ℕ
budgets = 12 ∷ 9 ∷ 10 ∷ 11 ∷ []

fenced_by : tract.fence_limit ≡ fence_from budgets
unfolding fence_from least_of
fenced_by = refl

append-within_budgets_example :
    IsWellFormed written.0 × ((b : ℕ) → Member b budgets → written.0.plow ≤ b)
append-within_budgets_example =
    append-within_budgets budgets no_live 2 two_blocks tract written.0 one_disk written.1
      (7 ∷ 0 ∷ []) fenced_by (omega arith) tract-IsWellFormed wraps

-- Blocks 2 and 6 of the tract are live; the plow is on its second lap.
abbrev live : LiveSet
live = record { hashed = (6, 1 ∷ []) ∷ []; referenced = 2 ∷ [] }

second_lap : NoneAhead 12 8 live
second_lap lba i h = absurd (omega arith)

derive_reap-clean_example :
    IsWellFormed (derived 4 12 8 none live)
    × ((k lba : ℕ)
        → k < clean_blocks (derived 4 12 8 none live)
        → Member lba (positions live)
        → place (derived 4 12 8 none live) k ≢ lba)
derive_reap-clean_example = derive_reap-clean 4 12 8 none live (omega arith) second_lap

realign-grown_example :
    (7 ≤ (realign 16 tract).plow)
    × IsWellFormed (realign 16 tract)
    × (clean_blocks (realign 16 tract) ≡ 16 - 8)
    × ((k : ℕ) → k < clean_blocks (realign 16 tract) → place (realign 16 tract) k ≡ 8 + k)
realign-grown_example = realign-grown tract 16 (omega arith)

expands : expand_runs 4 ((7, 1) ∷ (0, 2) ∷ []) 10 8 ≡ ok (7 ∷ 0 ∷ 1 ∷ [])
unfolding expand_runs check_runs check_from expand_all run_positions
expands = refl

abbrev three : List ℕ
three = 7 ∷ 0 ∷ 1 ∷ []

expand_runs-bounded_example : AllBelow 8 three × (length three ≡ 3) × (length three ≤ 8)
expand_runs-bounded_example =
    expand_runs-bounded 4 ((7, 1) ∷ (0, 2) ∷ []) 10 8 (7 ∷ 0 ∷ 1 ∷ []) expands

expand_all-compress_runs_example : expand_all (compress_runs (7 ∷ 0 ∷ 1 ∷ [])) ≡ 7 ∷ 0 ∷ 1 ∷ []
expand_all-compress_runs_example = expand_all-compress_runs (7 ∷ 0 ∷ 1 ∷ [])

-- The first run passes the end of the tract.
count_runs-check_runs_example :
    counted_total (count_runs ((7, 2) ∷ (0, 2) ∷ []) 8)
    ≡ checked_total (check_runs ((7, 2) ∷ (0, 2) ∷ []) 8)
count_runs-check_runs_example = count_runs-check_runs ((7, 2) ∷ (0, 2) ∷ []) 8

unknown : lookup 3 live.hashed ≡ none
unfolding lookup
unknown = refl

-- One delta adds block 3 and removes it, between two others.
apply-retires_example :
    is_referenced
      (apply
        (record {
          added = [] ++ (3, 5 ∷ []) ∷ (4, 6 ∷ []) ∷ [];
          removed = (6, 1 ∷ []) ∷ [] ++ (3, 5 ∷ []) ∷ (9, []) ∷ [];
        })
        live)
      3
    ≡ false
apply-retires_example =
    apply-retires 3 (5 ∷ []) [] ((4, 6 ∷ []) ∷ []) ((6, 1 ∷ []) ∷ []) ((9, []) ∷ []) live
      ((λ h. absurd (omega arith)), tt)
