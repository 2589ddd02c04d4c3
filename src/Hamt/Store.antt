-- ===== src/Hamt/Store.antt =====
-- src/hamt.rs: what the index reads of the tract: documents, and the furrows of a large value; the
-- lookup, and the deletion of a key.
use manifestus.Base.{
  ℕ, ◌+◌, ◌*◌, ◌^◌, Bool, true, false, not, ◌||◌, Option, none, some, List, [], ◌∷◌, ◌++◌, length,
  bytes_eq, ltb, ◌==◌, if◌then◌else◌,
}
use manifestus.Error.{
  Result, Run, ok, err, stuck, corrupt, and_then, ◌>>=◌, ◌>>◌, pure, throw, lift,
}
use manifestus.Block.{Block, BlockDev}
use manifestus.Mirror.State.{Mirror}
use manifestus.Ring.Codec.{Codec}
use manifestus.Ring.Document.{sealed_hp}
use manifestus.Tract
use manifestus.Tract.{Tract, read_cached, read_run, zero_delete}
use manifestus.Hamt.Runs.{expand_runs}
use manifestus.Hamt.Leaf.{furrow_capacity}
use manifestus.Hamt.Doc.{TractDoc, node, lone, extent, direct, furrow, decode_doc, doc_of}
use manifestus.Hamt.State.{Hamt, push_removed, on_store, update}
use manifestus.Hamt.Trie.{descend_root, find_leaf, prune}

-- What a delete may do to the blocks, src/lib.rs.
pub data DeletePolicy : Type 0 where
  zero_is_erase : DeletePolicy
  unlink_only : DeletePolicy

-- Blocks a value read takes at once.
abbrev pub run_step : ℕ
run_step = 2 ^ 8

module _ (c : Codec) where
  -- The payload of the furrow that stands at this index of the value.
  unfoldable pub furrow_payload : List ℕ → ℕ → TractDoc → Result (List ℕ)
  furrow_payload key here (furrow k index payload) =
      if not (bytes_eq k key) || not (index == here)
      then err (corrupt "furrow mismatched owner/index")
      else ok payload
  furrow_payload key here (node n) = err (corrupt "furrow wrong schema")
  furrow_payload key here (lone k v) = err (corrupt "furrow wrong schema")
  furrow_payload key here (direct k s f) = err (corrupt "furrow wrong schema")
  furrow_payload key here (extent k s r) = err (corrupt "furrow wrong schema")

  unfoldable pub block_payload : List ℕ → ℕ → Block → Result (List ℕ)
  unfolding furrow_payload
  block_payload key here block = elim (sealed_hp c block) [
    | none ↦ err (corrupt "furrow unsealed")
    | some h ↦ and_then (decode_doc c block) (furrow_payload key here)
  ]

  -- The payloads of the blocks of a run, of which the first is the value's furrow `here`.
  unfoldable pub run_payloads : List ℕ → ℕ → List Block → Result (List ℕ)
  unfolding block_payload
  run_payloads key here [] = ok []
  run_payloads key here (b ∷ bs) =
      let rest = run_payloads key (here + 1) bs in
      and_then (block_payload key here b) (λ p. and_then rest (λ ps. ok (p ++ ps)))

module _ (c : Codec) {A B : Type 0} (devA : BlockDev A) (devB : BlockDev B) (t : Tract) where
  -- Read and verify a tract block against its expected hash.
  unfoldable pub read_doc : ℕ → List ℕ → Run (Mirror A B) (Option TractDoc)
  unfolding ◌>>=◌ read_cached doc_of
  read_doc lba expected = do buf ← read_cached devA devB t lba; lift (doc_of c buf expected t.len)

  -- One read of `count` blocks from `first`, checked as the furrows from `start`.
  unfoldable pub read_step : List ℕ → ℕ → ℕ → ℕ → Run (Mirror A B) (List ℕ)
  unfolding ◌>>=◌ read_run run_payloads
  read_step key start first count = do
    blocks ← read_run devA devB t first count
    lift (run_payloads c key start blocks)

  -- The loop over the positions: `count` consecutive ones from `first` to `last` are not read yet.
  unfoldable pub read_steps : List ℕ → ℕ → ℕ → ℕ → ℕ → List ℕ → Run (Mirror A B) (List ℕ)
  unfolding ◌>>=◌ read_step
  read_steps key start first last count [] = read_step key start first count
  read_steps key start first last count (f ∷ fs) =
      let longer = read_steps key start first f (count + 1) fs in
      let next = read_steps key (start + count) f f 1 fs in
      if not (f == last + 1) || count == run_step
      then (do out ← read_step key start first count; rest ← next; pure (out ++ rest))
      else longer

  abbrev pub read_all : List ℕ → List ℕ → Run (Mirror A B) (List ℕ)
  read_all key [] = pure []
  read_all key (f ∷ fs) = read_steps key 0 f f 1 fs

  abbrev pub sized : ℕ → List ℕ → Result (List ℕ)
  sized size out =
      if not (length out == size) then err (corrupt "assembled size mismatch") else ok out

  unfoldable pub read_furrows : List ℕ → ℕ → List ℕ → Run (Mirror A B) (List ℕ)
  unfolding ◌>>=◌ read_steps
  read_furrows key size furrows =
      if ltb (length furrows * furrow_capacity c) size
      then throw (corrupt "value size exceeds what its furrows can carry")
      else (do out ← read_all key furrows; lift (sized size out))

  abbrev pub present : List ℕ → Run (Mirror A B) (Option (List ℕ))
  present bytes = pure (some bytes)

  -- The value of a leaf, if it is the key's.
  unfoldable pub value_of : List ℕ → ℕ → List ℕ → TractDoc → Run (Mirror A B) (Option (List ℕ))
  unfolding ◌>>=◌ read_furrows
  value_of key lba hash (lone k value) = if bytes_eq k key then pure (some value) else pure none
  value_of key lba hash (direct k size furrows) =
      if bytes_eq k key then (do out ← read_furrows key size furrows; present out) else pure none
  value_of key lba hash (extent k size runs) =
      if bytes_eq k key
      then (do
        positions ← lift (expand_runs (furrow_capacity c) runs size t.len)
        out ← read_furrows key size positions
        present out)
      else pure none
  value_of key lba hash (node n) = lift stuck
  value_of key lba hash (furrow k i p) = lift stuck

  unfoldable pub lookup : Hamt → List ℕ → Run (Mirror A B) (Option (List ℕ))
  unfolding descend_root value_of
  lookup h key = descend_root read_doc (value_of key) h key

  abbrev pub push_sealed : ℕ → Option (List ℕ) → Run (Hamt × Mirror A B) (Unit {0})
  push_sealed lba none = pure tt
  push_sealed lba (some h) = update (push_removed lba h)

  -- Every furrow that is still sealed is recorded as removed.
  unfoldable pub remove_furrows : List ℕ → Run (Hamt × Mirror A B) (Unit {0})
  unfolding ◌>>=◌ ◌>>◌
  remove_furrows [] = pure tt
  remove_furrows (f ∷ fs) =
      let rest = remove_furrows fs in
      do buf ← on_store (Tract.read devA devB t f); push_sealed f (sealed_hp c buf); rest

  -- The blocks behind a leaf's document.
  abbrev pub furrows_of : Option TractDoc → Result (List ℕ)
  furrows_of (some (direct k size furrows)) = ok furrows
  furrows_of (some (extent k size runs)) = expand_runs (furrow_capacity c) runs size t.len
  furrows_of _ = ok []

  -- Record a leaf (and its furrows) as no longer live.
  unfoldable pub remove_leaf_blocks : ℕ → List ℕ → Run (Hamt × Mirror A B) (Unit {0})
  unfolding ◌>>=◌ ◌>>◌ remove_furrows
  remove_leaf_blocks lba hash = do
    update (push_removed lba hash)
    doc ← on_store (read_doc lba hash)
    positions ← lift (furrows_of doc)
    remove_furrows positions

  unfoldable pub zero_all : List ℕ → Run (Mirror A B) (Unit {0})
  unfolding ◌>>◌
  zero_all [] = pure tt
  zero_all (f ∷ fs) = let rest = zero_all fs in do zero_delete devA devB t f; rest

  abbrev pub zero_doc : ℕ → Option TractDoc → Run (Mirror A B) (Unit {0})
  zero_doc lba none = pure tt
  zero_doc lba (some doc) = do
    positions ← lift (furrows_of (some doc))
    zero_all positions
    zero_delete devA devB t lba

  unfoldable pub zero_leaf : DeletePolicy → ℕ → List ℕ → Run (Mirror A B) (Unit {0})
  unfolding ◌>>=◌ ◌>>◌ zero_all
  zero_leaf unlink_only lba hash = pure tt
  zero_leaf zero_is_erase lba hash = do doc ← read_doc lba hash; zero_doc lba doc

  abbrev pub delete_found :
      List ℕ → DeletePolicy → Option (ℕ × List ℕ) → Run (Hamt × Mirror A B) Bool
  delete_found key policy none = pure false
  delete_found key policy (some (lba, hash)) = do
    remove_leaf_blocks lba hash
    on_store (zero_leaf policy lba hash)
    prune read_doc key (hash, lba)
    pure true

  unfoldable pub find : List ℕ → Run (Hamt × Mirror A B) (Option (ℕ × List ℕ))
  unfolding find_leaf
  find key (h, m) = on_store (find_leaf read_doc h key) (h, m)

  -- Delete: true when the key was there.
  unfoldable pub delete : List ℕ → DeletePolicy → Run (Hamt × Mirror A B) Bool
  unfolding ◌>>=◌ ◌>>◌ find remove_leaf_blocks zero_leaf prune
  delete key policy = do found ← find key; delete_found key policy found
