-- ===== src/Examples/Walks.antt =====
-- The theorems on the walks and on the retiring of a leaf, at a disk with one leaf.
use manifestus.Base.{
  ℕ, zero, suc, ◌≡◌, refl, bytes_eq, true, Option, none, some, List, [], ◌∷◌, replicate,
}
use manifestus.Error.{Result, ok, err, stuck}
use manifestus.Block.{Block, zero_block}
use manifestus.Mirror.State.{Mirror}
use manifestus.Ring.Codec.{as_u64}
use manifestus.Ring.Entry.{to32}
use manifestus.Ring.Document.{
  sealed_hp, open_seal, encode_doc, read_fields, fill_doc, copy_at, hp_len, body_start, put_fields,
  seal_doc, read_field,
}
use manifestus.Tract.{Tract}
use manifestus.Hamt.Leaf.{committed, encode_lone, encode_extent, encode_furrow, furrow_capacity}
use manifestus.Hamt.Doc.{doc_of, decode_doc, doc_schema, check_pointed, pointed, past_tract}
use manifestus.Hamt.Steady.{docs_on}
use manifestus.Hamt.Recorded.{sealed_at}
use manifestus.Hamt.State.{Hamt, empty}
use manifestus.Hamt.Visit.{walk_live_collect}
use manifestus.Hamt.Reported.{IsOnce}
use manifestus.Hamt.Once.{walk_live_collect-IsOnce}
use manifestus.Hamt.Mend.{walk_live_repair}
use manifestus.Hamt.Mended.{walk_live_repair-IsOnce}
use manifestus.Examples.Toy.{toy}
use manifestus.Examples.Disk.{Disk, disk, stored, blank}

abbrev tract : Tract
tract = record { base = 4; len = 8; plow = 2; reap = 0; fence_limit = none }

abbrev block_or : Result Block → Block
block_or (ok b) = b
block_or (err e) = []
block_or stuck = []

abbrev leaf : Block
leaf = block_or (encode_lone toy (replicate 32 5) (7 ∷ []))

abbrev hash_or : Option (List ℕ) → List ℕ
hash_or none = []
hash_or (some h) = h

abbrev leaf_hash : List ℕ
leaf_hash = hash_or (sealed_hp toy leaf)

abbrev leaf_disk : Mirror Disk Disk
leaf_disk = record {
  a = some (stored 5 leaf blank);
  b = none;
  degraded = true;
  events = [];
  pending = [];
  cache = [];
  uses = 0;
}

abbrev leaf_index : Hamt
leaf_index = record empty { root = some (committed leaf_hash 1) }

walk_live_collect-IsOnce_example :
    IsOnce (walk_live_collect toy disk disk tract leaf_index [] [] leaf_disk).1.0
walk_live_collect-IsOnce_example =
    walk_live_collect-IsOnce toy disk disk tract leaf_index [] leaf_disk

walk_live_repair-IsOnce_example :
    IsOnce (walk_live_repair toy disk disk tract leaf_index [] [] [] leaf_disk).1.0.walk
walk_live_repair-IsOnce_example =
    walk_live_repair-IsOnce toy disk disk tract leaf_index [] [] leaf_disk

-- A value of one furrow: its leaf at the position 1, the furrow at 2.
abbrev value_key : List ℕ
value_key = replicate 32 5

abbrev value_leaf : Block
value_leaf = block_or (encode_extent toy value_key 10 ((2, 1) ∷ []))

abbrev value_furrow : Block
value_furrow = block_or (encode_furrow toy value_key 0 (7 ∷ 8 ∷ []))

abbrev value_blocks : ℕ → Block
value_blocks (suc (suc (suc (suc (suc zero))))) = value_leaf
value_blocks (suc (suc (suc (suc (suc (suc zero)))))) = value_furrow
value_blocks _ = []

abbrev value_hash : List ℕ
value_hash = hash_or (sealed_hp toy value_leaf)

abbrev value_store : Mirror Disk Disk
value_store = record leaf_disk { a = some value_blocks }

-- The furrow is sealed, so it is recorded.
furrow_recorded :
    sealed_at toy value_blocks tract (2 ∷ []) ≡ (2, hash_or (sealed_hp toy value_furrow)) ∷ []
unfolding docs_on doc_of decode_doc doc_schema sealed_hp open_seal check_pointed pointed past_tract
    encode_extent encode_furrow encode_doc zero_block bytes_eq read_fields furrow_capacity fill_doc
    copy_at replicate hp_len body_start put_fields seal_doc read_field to32 as_u64
furrow_recorded = refl
