-- ===== src/Hamt/Leaf.antt =====
-- src/hamt.rs: the blocks of the index, written: lone, extent and direct leaves, furrows and nodes.
-- `begin_block`, `put_field` and `seal_block` are the sealed document of named fields.
use manifestus.Base.{
  ℕ, ◌+◌, ◌-◌, ◌/◌, ◌^◌, Option, none, some, List, [], ◌∷◌, length, ltb, if◌then◌else◌,
}
use manifestus.Error.{Result, ok, err, stuck, corrupt, and_then}
use manifestus.Block.{Block, block_bytes}
use manifestus.Ring.Codec.{Codec, hp, u, v, text}
use manifestus.Ring.Document.{Field, body_start, encode_doc}
use manifestus.Hamt.Runs.{Extent}

abbrev pub schema_lone : List ℕ
schema_lone = text "manifestus.lone"

abbrev pub schema_extent : List ℕ
schema_extent = text "manifestus.extent"

abbrev pub schema_direct : List ℕ
schema_direct = text "manifestus.direct"

abbrev pub schema_furrow : List ℕ
schema_furrow = text "manifestus.furrow"

abbrev pub schema_node : List ℕ
schema_node = text "manifestus.hamt"

pub data Child : Type 0 where
  committed : List ℕ → ℕ → Child
  dirty : ℕ → Child

pub record Node : Type 0 where
  pub depth : ℕ
  pub route : List ℕ
  pub children : List (Option Child)

unfoldable pub run_fields : List Extent → List Field
run_fields [] = []
run_fields ((s, c) ∷ runs) = (text "s", u s) ∷ (text "c", u c) ∷ run_fields runs

unfoldable pub furrow_fields : List ℕ → List Field
furrow_fields [] = []
furrow_fields (lba ∷ lbas) = (text "f", u lba) ∷ furrow_fields lbas

-- The bit of every child that is there, from the bit `i`.
unfoldable pub presence_from : ℕ → List (Option Child) → ℕ
presence_from i [] = 0
presence_from i (none ∷ cs) = presence_from (i + 1) cs
presence_from i (some c ∷ cs) = 2 ^ i + presence_from (i + 1) cs

-- The children's fields; a child that was not flushed is a panic.
unfoldable pub child_fields : List (Option Child) → Result (List Field)
child_fields [] = ok []
child_fields (none ∷ cs) = child_fields cs
child_fields (some (committed hash lba) ∷ cs) =
    and_then (child_fields cs) (λ fs. ok ((text "ch", hp hash) ∷ (text "at", u lba) ∷ fs))
child_fields (some (dirty i) ∷ cs) = stuck

module _ (c : Codec) where
  -- A value's bytes in a lone leaf, with room for the envelope.
  unfoldable pub lone_capacity : ℕ
  lone_capacity = block_bytes - body_start c - 2 ^ 7

  unfoldable pub max_runs : ℕ
  max_runs = (block_bytes - body_start c - 96) / 32

  unfoldable pub furrow_capacity : ℕ
  furrow_capacity = block_bytes - body_start c - 2 ^ 7

  unfoldable pub encode_lone : List ℕ → List ℕ → Result Block
  encode_lone key value =
      encode_doc c schema_lone ((text "key", hp key) ∷ (text "v", v b'r' value) ∷ [])

  unfoldable pub encode_extent : List ℕ → ℕ → List Extent → Result Block
  unfolding run_fields max_runs
  encode_extent key size runs =
      if ltb max_runs (length runs)
      then err (corrupt "extent leaf overflow")
      else encode_doc c schema_extent
          ((text "key", hp key) ∷ (text "size", u size) ∷ run_fields runs)

  unfoldable pub encode_direct : List ℕ → ℕ → List ℕ → Result Block
  unfolding furrow_fields
  encode_direct key size furrows =
      encode_doc c schema_direct
        ((text "key", hp key) ∷ (text "size", u size) ∷ furrow_fields furrows)

  unfoldable pub encode_furrow : List ℕ → ℕ → List ℕ → Result Block
  encode_furrow key index payload =
      encode_doc c schema_furrow
        ((text "key", hp key) ∷ (text "i", u index) ∷ (text "v", v b'r' payload) ∷ [])

  unfoldable pub encode_node : Node → Result Block
  unfolding child_fields presence_from
  encode_node node = and_then (child_fields node.children) (λ fs. encode_doc c schema_node (
      (text "depth", u node.depth)
      ∷ (text "route", hp node.route)
      ∷ (text "map", u (presence_from 0 node.children))
      ∷ fs))
