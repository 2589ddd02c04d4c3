-- ===== src/Tract.antt =====
-- src/tract.rs: the two-cursor log ring. `pub fn`s with `&mut Mirror` are functions of the tract and
-- the mirror; `make` is a function of the index.
use manifestus.Base.{
  ℕ, zero, suc, ◌+◌, ◌-◌, ◌/◌, ◌%◌, Bool, true, false, not, Option, none, some, List, [], ◌∷◌,
  length, get_elem?, bytes_eq, ◌||◌, take, drop, ltb, leb, ◌==◌, if◌then◌else◌,
}
use manifestus.Error.{Result, Run, ok, err, stuck, Error, bounds, fenced, tract_full, throw}
use manifestus.Events.{live_lap_averted}
use manifestus.Block.{Block, BlockDev, zero_block}
use manifestus.Mirror.State.{Mirror, reserve_staged, stage_one, emit}
use manifestus.Mirror.Ops.{write_verified}
use manifestus.Mirror.Reads
use manifestus.Ring.Codec.{Codec, VsfType, hp}
use manifestus.Ring.Document.{magic}
pub mod Append
pub mod Placed

-- The caller's knowledge of what is referenced.
pub record Liveness : Type 0 where
  pub is_live : ℕ → List ℕ → Bool
  pub is_referenced : ℕ → Bool

abbrev pub no_live : Liveness
no_live = record { is_live = λ lba hp. false; is_referenced = λ lba. false }

pub record Tract : Type 0 where
  pub base : ℕ
  pub len : ℕ
  pub plow : ℕ
  pub reap : ℕ
  pub fence_limit : Option ℕ

unfoldable pub position : Tract → ℕ
position t = t.plow % t.len

unfoldable pub lap : Tract → ℕ
lap t = t.plow / t.len

-- Blocks of clean space.
unfoldable pub clean_blocks : Tract → ℕ
clean_blocks t = t.len - (t.plow - t.reap)

-- The tract's position `i` blocks past the plow.
abbrev pub place : Tract → ℕ → ℕ
place t i = (t.plow + i) % t.len

-- The lap guard: the first of `left` positions from the `i`th that the index references.
unfoldable pub lapped : Liveness → Tract → ℕ → ℕ → Option ℕ
lapped live t zero i = none
lapped live t (suc left) i =
    if live.is_referenced (place t i) then some (place t i) else lapped live t left (i + 1)

abbrev pub over_fence : Option ℕ → ℕ → Bool
over_fence none end = false
over_fence (some limit) end = ltb limit end

-- The positions of `left` blocks from the `i`th.
unfoldable pub places : Tract → ℕ → ℕ → List ℕ
places t zero i = []
places t (suc left) i = place t i ∷ places t left (i + 1)

-- `blocks[i]`: `append_with` asks for no other index than the slice has.
abbrev pub nth_block : List Block → ℕ → Block
nth_block [] i = zero_block
nth_block (b ∷ bs) zero = b
nth_block (b ∷ bs) (suc i) = nth_block bs i

module _ {A B : Type 0} where
  -- The staging loop.
  unfoldable pub stage_from : Tract → (ℕ → Block) → ℕ → ℕ → Mirror A B → Mirror A B
  stage_from t make zero i m = m
  stage_from t make (suc left) i m =
      stage_from t make left (i + 1) (stage_one (t.base + place t i) (make i) m)

  abbrev pub guarded :
      Option ℕ
      → Result (List ℕ) × (Tract × Mirror A B)
      → Tract × Mirror A B
      → Result (List ℕ) × (Tract × Mirror A B)
  guarded none go s = go
  guarded (some pos) go (t, m) = (err tract_full, (t, emit (live_lap_averted pos) m))

  unfoldable pub append_with : Liveness → ℕ → (ℕ → Block) → Run (Tract × Mirror A B) (List ℕ)
  unfolding clean_blocks lapped places stage_from
  append_with live n make (t, m) =
      if ltb (clean_blocks t) n
      then (err tract_full, (t, m))
      else if over_fence t.fence_limit (t.plow + n)
      then (err (fenced t.plow), (t, m))
      else guarded (lapped live t n 0)
          (
            ok (places t n 0),
            (record t { plow = t.plow + n }, stage_from t make n 0 (reserve_staged n m)),
          )
          (t, m)

  unfoldable pub append : Liveness → List Block → Run (Tract × Mirror A B) (List ℕ)
  unfolding append_with
  append live blocks = append_with live (length blocks) (nth_block blocks)

module _ {A B : Type 0} (devA : BlockDev A) (devB : BlockDev B) where
  unfoldable pub zero_delete : Tract → ℕ → Run (Mirror A B) (Unit {0})
  zero_delete t lba m =
      if leb t.len lba
      then (err (bounds lba), m)
      else write_verified devA devB (t.base + lba) zero_block m

  unfoldable pub read_cached : Tract → ℕ → Run (Mirror A B) Block
  read_cached t lba m =
      if leb t.len lba then (err (bounds lba), m) else Reads.read_cached devA devB (t.base + lba) m

  unfoldable pub read : Tract → ℕ → Run (Mirror A B) Block
  read t lba m =
      if leb t.len lba then (err (bounds lba), m) else Reads.read devA devB (t.base + lba) m

  -- The subtraction form: no sum that could wrap.
  unfoldable pub read_run : Tract → ℕ → ℕ → Run (Mirror A B) (List Block)
  read_run t lba n m =
      if leb t.len lba || ltb (t.len - lba) n
      then (err (bounds lba), m)
      else Reads.read_run devA devB (t.base + lba) n m

  -- The loop that translates and bounds-checks every position.
  unfoldable pub device_lbas : Tract → List ℕ → Result (List ℕ)
  device_lbas t [] = ok []
  device_lbas t (lba ∷ lbas) =
      if leb t.len lba then err (bounds lba) else elim (device_lbas t lbas) [
        | ok dev ↦ ok ((t.base + lba) ∷ dev)
        | err e ↦ err e
        | stuck ↦ stuck
      ]

  unfoldable pub read_many : Tract → List ℕ → Run (Mirror A B) (List Block)
  unfolding device_lbas
  read_many t lbas m = elim (device_lbas t lbas) [
    | ok dev ↦ Reads.read_many devA devB dev m
    | err e ↦ (err e, m)
    | stuck ↦ (stuck, m)
  ]
