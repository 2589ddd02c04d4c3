-- ===== src/Hamt/Put.antt =====
-- src/hamt.rs: `put`, whose blocks reach the tract before the index knows them, and `flush`, which
-- writes the dirty nodes bottom-up.
use manifestus.Base.{
  ℕ, zero, suc, ◌+◌, ◌*◌, Option, none, some, List, [], ◌∷◌, length, get_elem?, take, drop, leb,
  if◌then◌else◌,
}
use manifestus.Error.{Result, Run, ok, err, stuck, and_then, ◌>>=◌, ◌>>◌, pure, lift}
use manifestus.Block.{Block, BlockDev}
use manifestus.Mirror.State.{Mirror}
use manifestus.Ring.Codec.{Codec}
use manifestus.Ring.Document.{sealed_hp, zero_hash}
use manifestus.Tract.{Tract, Liveness, append}
use manifestus.Hamt.Runs.{div_ceil, compress_runs}
use manifestus.Hamt.Leaf.{
  Child, committed, dirty, lone_capacity, furrow_capacity, encode_lone, encode_extent,
  encode_furrow, encode_node,
}
use manifestus.Hamt.State.{Hamt, push_added, node_at, set_child, on_store, update, look}
use manifestus.Hamt.Trie.{levels, insert_child}
use manifestus.Hamt.Store.{read_doc, remove_leaf_blocks}

-- `[0]` of the appended positions.
abbrev pub first_of : List ℕ → Result ℕ
first_of [] = stuck
first_of (lba ∷ lbas) = ok lba

module _ (c : Codec) where
  -- `sealed_hp(&block).unwrap()`
  unfoldable pub seal_of : Block → Result (List ℕ)
  seal_of block = elim (sealed_hp c block) [ none ↦ stuck | some h ↦ ok h ]

  unfoldable pub seals_of : List Block → Result (List (List ℕ))
  unfolding seal_of
  seals_of [] = ok []
  seals_of (b ∷ bs) =
      let rest = seals_of bs in and_then (seal_of b) (λ h. and_then rest (λ hs. ok (h ∷ hs)))

  -- The furrows of a value, `left` of them from the index `i`.
  unfoldable pub furrow_blocks : List ℕ → List ℕ → ℕ → ℕ → Result (List Block)
  furrow_blocks key value zero i = ok []
  furrow_blocks key value (suc left) i =
      let rest = furrow_blocks key value left (i + 1) in
      let payload = take (furrow_capacity c) (drop (i * furrow_capacity c) value) in
      and_then (encode_furrow c key i payload) (λ b. and_then rest (λ bs. ok (b ∷ bs)))

-- `zip` and a push for each pair.
unfoldable pub push_all_added : List ℕ → List (List ℕ) → Hamt → Hamt
push_all_added [] hs h = h
push_all_added (lba ∷ lbas) [] h = h
push_all_added (lba ∷ lbas) (hash ∷ hs) h = push_all_added lbas hs (push_added lba hash h)

-- The delta as it was before an operation that failed.
unfoldable pub rolled_back : {S X : Type 0} → Hamt → Result X × (Hamt × S) → Result X × (Hamt × S)
rolled_back before (ok x, s) = (ok x, s)
rolled_back before (stuck, s) = (stuck, s)
rolled_back before (err e, (h, s)) = (
  err e,
  (
    record h {
      delta = record {
        added = take (length before.delta.added) h.delta.added;
        removed = take (length before.delta.removed) h.delta.removed;
      };
    },
    s,
  ),
)

module _ (c : Codec) {A B : Type 0} (devA : BlockDev A) (devB : BlockDev B) where
  -- A method that reads through a tract it leaves alone.
  abbrev pub beside_tract :
      {X : Type 0}
      → Tract
      → Result X × (Hamt × Mirror A B)
      → Result X × (Hamt × (Tract × Mirror A B))
  beside_tract t (r, (h, m)) = (r, (h, (t, m)))

  abbrev pub with_tract :
      {X : Type 0} → (Tract → Run (Hamt × Mirror A B) X) → Run (Hamt × (Tract × Mirror A B)) X
  with_tract f (h, (t, m)) = beside_tract t (f t (h, m))

  module _ (live : Liveness) where
    -- One block is appended, and the delta gains it.
    unfoldable pub append_block : Block → Run (Hamt × (Tract × Mirror A B)) (ℕ × List ℕ)
    unfolding ◌>>=◌ ◌>>◌ append seal_of
    append_block block = do
      lbas ← on_store (append live (block ∷ []))
      lba ← lift (first_of lbas)
      hash ← lift (seal_of c block)
      update (push_added lba hash)
      pure (lba, hash)

    -- The leaf of a value, and before it the furrows that it names. The furrows are encoded before
    -- the append looks at them, not while it does.
    unfoldable pub append_leaf : List ℕ → List ℕ → Run (Hamt × (Tract × Mirror A B)) (ℕ × List ℕ)
    unfolding ◌>>=◌ ◌>>◌ append append_block furrow_blocks seals_of push_all_added
    append_leaf key value =
        if leb (length value) (lone_capacity c)
        then (do leaf ← lift (encode_lone c key value); append_block leaf)
        else (do
          blocks ← lift (furrow_blocks c key value (div_ceil (length value) (furrow_capacity c)) 0)
          placed ← on_store (append live blocks)
          hashes ← lift (seals_of c blocks)
          update (push_all_added placed hashes)
          leaf ← lift (encode_extent c key (length value) (compress_runs placed))
          append_block leaf)

    abbrev pub insert_leaf_at :
        List ℕ → ℕ × List ℕ → Option Child → Tract → Run (Hamt × Mirror A B) Child
    insert_leaf_at key leaf slot t =
        insert_child (read_doc c devA devB t) (remove_leaf_blocks c devA devB t) levels slot 0 key
          (committed leaf.1 leaf.0)

    unfoldable pub put_inner : List ℕ → List ℕ → Run (Hamt × (Tract × Mirror A B)) (Unit {0})
    unfolding ◌>>=◌ ◌>>◌ append_leaf insert_child
    put_inner key value = do
      leaf ← append_leaf key value
      slot ← look (λ h. ok h.root)
      root ← with_tract (insert_leaf_at key leaf slot)
      update (λ h. record h { root = some root })

    -- Insert or overwrite.
    unfoldable pub put : List ℕ → List ℕ → Run (Hamt × (Tract × Mirror A B)) (Unit {0})
    unfolding put_inner rolled_back
    put key value s = rolled_back s.0 (put_inner key value s)

    -- `self.arena[idx].children[c].clone()`
    abbrev pub nth_child : ℕ → ℕ → Hamt → Result (Option Child)
    nth_child idx i h =
        and_then (node_at h idx)
          (λ n. elim (get_elem? n.children i) [ none ↦ stuck | some x ↦ ok x ])

    -- A dirty child is written by `go` and becomes committed.
    abbrev pub flush_child :
        (ℕ → Run (Hamt × (Tract × Mirror A B)) (ℕ × List ℕ))
        → ℕ
        → ℕ
        → Option Child
        → Run (Hamt × (Tract × Mirror A B)) (Unit {0})
    flush_child go idx i none = pure tt
    flush_child go idx i (some (committed hash lba)) = pure tt
    flush_child go idx i (some (dirty sub)) = do
      at ← go sub
      update (set_child idx i (some (committed at.1 at.0)))

    -- The `left` children from the `i`th.
    unfoldable pub flush_children :
        (ℕ → Run (Hamt × (Tract × Mirror A B)) (ℕ × List ℕ))
        → ℕ
        → ℕ
        → ℕ
        → Run (Hamt × (Tract × Mirror A B)) (Unit {0})
    unfolding ◌>>=◌ ◌>>◌ node_at set_child
    flush_children go idx zero i = pure tt
    flush_children go idx (suc left) i =
        let rest = flush_children go idx left (i + 1) in
        do x ← look (nth_child idx i); flush_child go idx i x; rest

    unfoldable pub flush_node : ℕ → ℕ → Run (Hamt × (Tract × Mirror A B)) (ℕ × List ℕ)
    unfolding ◌>>=◌ ◌>>◌ flush_children append_block
    flush_node zero idx = lift stuck
    flush_node (suc left) idx = do
      flush_children (flush_node left) idx 32 0
      n ← look (λ h. node_at h idx)
      block ← lift (encode_node c n)
      append_block block

    abbrev pub clear_arena : ℕ × List ℕ → Run (Hamt × (Tract × Mirror A B)) (List ℕ × ℕ)
    clear_arena at = do update (λ h. record h { arena = [] }); pure (at.1, at.0)

    abbrev pub flush_root : Option Child → Run (Hamt × (Tract × Mirror A B)) (List ℕ × ℕ)
    flush_root none = pure (zero_hash, 0)
    flush_root (some (committed hash lba)) = clear_arena (lba, hash)
    flush_root (some (dirty idx)) = do
      at ← flush_node levels idx
      update (λ h. record h { root = some (committed at.1 at.0) })
      clear_arena at

    -- Write every dirty node; the hash of zeros means an empty index.
    unfoldable pub flush : Run (Hamt × (Tract × Mirror A B)) (List ℕ × ℕ)
    unfolding ◌>>=◌ ◌>>◌ flush_node
    flush s = ((look (λ h. ok h.root)) >>= flush_root) s
