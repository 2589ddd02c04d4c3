-- ===== src/Inspect.antt =====
-- src/inspect.rs: of the inspector, the probe for the ring exponent, the walk of the commit chain and
-- the count of an extent's runs. Its text is left out.
use manifestus.Base.{
  ℕ, zero, suc, ◌+◌, ◌-◌, min, Bool, true, false, not, ◌||◌, Option, none, some, List, [], ◌∷◌,
  bytes_eq, ltb, leb, ◌==◌, if◌then◌else◌, slots, masked, String,
}
use manifestus.Error.{Result, Run, ok, err, stuck, ◌>>=◌, pure}
use manifestus.Block.{Block, BlockDev}
use manifestus.Ring.Codec.{Codec}
use manifestus.Ring.Document.{zero_hash}
use manifestus.Ring.Entry.{SpineEntry, Classified, valid, empty, corrupted, body_hash, classify}
use manifestus.Hamt.Runs.{Extent}
pub mod Agree

-- The finding is a text, not an error.
pub data Counted : Type 0 where
  total_of : ℕ → Counted
  finding : String → Counted

unfoldable pub count_from : ℕ → ℕ → List Extent → Counted
count_from tract_len total [] = total_of total
count_from tract_len total ((s, c) ∷ runs) =
    let rest = count_from tract_len (total + c) runs in
    if leb tract_len s || ltb (tract_len - s) c
    then finding "extent run reaches past the tract"
    else if ltb tract_len (total + c)
    then finding "extent runs total too many blocks"
    else rest

unfoldable pub count_runs : List Extent → ℕ → Counted
unfolding count_from
count_runs runs tract_len = count_from tract_len 0 runs

module _ (c : Codec) {D : Type 0} (dev : BlockDev D) where
  abbrev pub exponent_of : Classified → Run D (Option ℕ) → Run D (Option ℕ)
  exponent_of (valid e) rest = pure (some e.ring_log2)
  exponent_of empty rest = rest
  exponent_of corrupted rest = rest

  unfoldable pub discover_from : ℕ → ℕ → Run D (Option ℕ)
  discover_from zero slot = pure none
  discover_from (suc left) slot =
      let rest = discover_from left (slot + 1) in
      (do b ← dev.read slot; exponent_of (classify c b slot none) rest)

  unfoldable pub discover_ring_log2 : Run D (Option ℕ)
  unfolding discover_from
  discover_ring_log2 d = discover_from (min 16 (dev.block_count d)) 0 d

  -- Whether a child's hash is that of its parent's body.
  abbrev pub links : List ℕ → Result (List ℕ) → Bool
  links child_prev (ok hash) = bytes_eq child_prev hash
  links child_prev (err e) = false
  links child_prev stuck = false

  abbrev pub reported : ℕ → Bool → List (ℕ × Bool) × D → List (ℕ × Bool) × D
  reported gen link_ok (out, d) = ((gen, link_ok) ∷ out, d)

  -- What the walk does with the parent's slot: it follows a link to the generation wanted.
  abbrev pub follow :
      ℕ → List ℕ → ℕ → Classified → (SpineEntry → List (ℕ × Bool) × D) → D → List (ℕ × Bool) × D
  follow gen child_prev parent_gen (valid parent) go d =
      if parent.gen == parent_gen
      then reported gen (links child_prev (body_hash c parent)) (go parent)
      else ((gen, false) ∷ [], d)
  follow gen child_prev parent_gen empty go d = ((gen, false) ∷ [], d)
  follow gen child_prev parent_gen corrupted go d = ((gen, false) ∷ [], d)

  abbrev pub at_parent :
      ℕ
      → ℕ
      → List ℕ
      → ℕ
      → (SpineEntry → D → List (ℕ × Bool) × D)
      → Result Block × D
      → List (ℕ × Bool) × D
  at_parent ring_log2 gen child_prev parent_gen go (ok b, d) =
      follow gen child_prev parent_gen
        (classify c b (masked parent_gen (slots ring_log2)) (some ring_log2)) (λ p. go p d) d
  at_parent ring_log2 gen child_prev parent_gen go (err e, d) = ((gen, false) ∷ [], d)
  at_parent ring_log2 gen child_prev parent_gen go (stuck, d) = ((gen, false) ∷ [], d)

  -- From a generation down to the first.
  unfoldable pub walk_from : ℕ → ℕ → List ℕ → D → List (ℕ × Bool) × D
  walk_from ring_log2 zero child_prev d = ((0, bytes_eq child_prev zero_hash) ∷ [], d)
  walk_from ring_log2 (suc parent_gen) child_prev d =
      at_parent ring_log2 (suc parent_gen) child_prev parent_gen
        (λ parent. walk_from ring_log2 parent_gen parent.prev_hash)
        (dev.read (masked parent_gen (slots ring_log2)) d)

  unfoldable pub walk_chain : ℕ → Option (ℕ × SpineEntry) → D → List (ℕ × Bool) × D
  unfolding walk_from
  walk_chain ring_log2 none d = ([], d)
  walk_chain ring_log2 (some h) d = walk_from ring_log2 h.1.gen h.1.prev_hash d
