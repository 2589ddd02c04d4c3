-- ===== src/Examples/Engine.antt =====
-- The theorems on the engine's index, at a disk with two leaves and a committed node.
use manifestus.Base.{
  ℕ, ◌≡◌, ◌∙◌, refl, ap, true, Option, none, some, List, [], ◌∷◌, replicate, bytes_eq,
}
use manifestus.Error.{Result, Run, ok, continue, pure, ◌>>=◌, ◌>>◌}
use manifestus.Mirror.State.{Mirror}
use manifestus.Mirror.Stable.{IsStable}
use manifestus.Hamt.Walk.{chunk, window, byte_at, node_at_depth}
use manifestus.Hamt.Leaf.{Child, committed, dirty}
use manifestus.Hamt.Doc.{TractDoc, node, lone}
use manifestus.Hamt.State.{
  Hamt, on_store, beside, update, push_removed, child_of, node_at, set_child, set_nth, push_node,
}
use manifestus.Hamt.Steady.{docs_on, read_doc-IsSteady}
use manifestus.Hamt.Recorded.{remove_leaf_blocks-records}
use manifestus.Hamt.Index.{rooted}
use manifestus.Hamt.Seek.{IsSteady}
use manifestus.Hamt.Frame.{SlotPlaced, StandsAt, IsTrie}
use manifestus.Hamt.Split.{LeafAt}
use manifestus.Hamt.Trie.{
  levels, insert_child, insert_doc, insert_leaf, edit_below, split, prune, prune_child, prune_doc,
  find_leaf, descend_root, descend, on_doc, leaf_here,
}
use manifestus.Hamt.Store.{
  read_doc, remove_leaf_blocks, delete, delete_found, find, zero_leaf, unlink_only,
}
use manifestus.Hamt.Engine.{insert_child-find, delete-find, find-LeafAt}
use manifestus.Examples.Index.{key_a, key_b, key_a-IsKey, key_b-IsKey, a_is_not_b, b_is_not_a}
use manifestus.Examples.Toy.{toy}
use manifestus.Examples.Disk.{Disk, disk, medium, medium-IsHealthy}
use manifestus.Examples.Content.{
  tract, blocks, hash_a, hash_b, node_hash, root_node, a_named, node_named, routed, leaf_keys,
  new_leaf, store, index, store-IsStable, no_nodes, root_placed,
}

-- The reads of a store that is stable.
abbrev next : ℕ → List ℕ → Mirror Disk Disk → Mirror Disk Disk
next lba hash m = (read_doc toy disk disk tract lba hash m).1

steady :
    IsSteady
      (read_doc toy disk disk tract)
      (λ m. IsStable medium medium blocks m)
      (docs_on toy blocks tract)
steady = read_doc-IsSteady toy medium medium blocks tract medium-IsHealthy medium-IsHealthy

next-IsStable :
    (lba : ℕ) (hash : List ℕ) (m : Mirror Disk Disk)
    → IsStable medium medium blocks m
    → IsStable medium medium blocks (next lba hash m)
next-IsStable lba hash m s = (steady lba hash m s).1

reads :
    (lba : ℕ) (hash : List ℕ) (m : Mirror Disk Disk) (doc : TractDoc)
    → IsStable medium medium blocks m
    → docs_on toy blocks tract lba hash ≡ ok (some doc)
    → read_doc toy disk disk tract lba hash m ≡ (ok (some doc), next lba hash m)
reads lba hash m doc s e = λ i. (((steady lba hash m s).0 ∙ e) i, next lba hash m)

abbrev store1 : Mirror Disk Disk
store1 = next 3 node_hash store

abbrev store2 : Mirror Disk Disk
store2 = next 1 hash_a store1

at_node : read_doc toy disk disk tract 3 node_hash store ≡ (ok (some (node root_node)), store1)
at_node = reads 3 node_hash store (node root_node) store-IsStable node_named

store1-IsStable : IsStable medium medium blocks store1
store1-IsStable = next-IsStable 3 node_hash store store-IsStable

at_leaf : read_doc toy disk disk tract 1 hash_a store1 ≡ (ok (some (lone key_a (7 ∷ []))), store2)
at_leaf = reads 1 hash_a store1 (lone key_a (7 ∷ [])) store1-IsStable a_named

abbrev new_child : Child
new_child = committed hash_b 2

-- The index with a copy of the node, then with the nodes of the split, then with the new slot.
abbrev with_node : Hamt → Hamt
with_node h = record h { arena = root_node ∷ [] }

after_split : Hamt
after_split = (split 51 1 key_a (committed hash_a 1) key_b new_child (with_node index)).1

after_insert : Hamt
after_insert = push_removed 3 node_hash (set_child 0 0 (some (dirty 3)) after_split)

abbrev with_retired : Hamt
with_retired = record index { delta = record { added = []; removed = (1, hash_a) ∷ [] } }

after_prune : Hamt
after_prune =
    let h : Hamt = set_child 0 0 none (push_removed 3 node_hash (with_node with_retired)) in
    record h { root = some (dirty 0) }

bind_ok :
    {S X Y : Type 0} (run : Run S X) (f : X → Run S Y) (s t : S) (x : X)
    → run s ≡ (ok x, t)
    → (run >>= f) s ≡ f x t
unfolding ◌>>=◌
bind_ok run f s t x e = ap (continue f) e

then_ok :
    {S Y : Type 0} (run : Run S (Unit {0})) (next : Run S Y) (s t : S)
    → run s ≡ (ok tt, t)
    → (run >> next) s ≡ next t
unfolding ◌>>◌
then_ok run next s t e = ap (continue (λ _. next)) e

module _ {M : Type 0} (read : ℕ → List ℕ → Run M (Option TractDoc))
    (retire : ℕ → List ℕ → Run (Hamt × M) (Unit {0})) where
  -- The insert through the copy of the node, on what it makes of the leaf's slot.
  through_node :
      (go : Option Child → Run (Hamt × M) Child) (m1 m2 : M)
      → go (some (committed hash_a 1)) (with_node index, m1) ≡ (ok (dirty 3), (after_split, m2))
      → insert_doc read retire go 52 0 key_b new_child node_hash 3
          (some (node root_node))
          (index, m1)
        ≡ (ok (dirty 0), (after_insert, m2))
  unfolding after_insert insert_doc edit_below chunk window byte_at bytes_eq replicate ◌>>=◌ ◌>>◌
      child_of node_at set_child set_nth push_node node_at_depth
  through_node go m1 m2 e = rw e refl

  split_leaf :
      (go : Option Child → Run (Hamt × M) Child) (m2 : M)
      → insert_doc read retire go 51 1 key_b new_child hash_a 1
          (some (lone key_a (7 ∷ [])))
          (with_node index, m2)
        ≡ (ok (dirty 3), (after_split, m2))
  unfolding after_split insert_doc insert_leaf split chunk window byte_at bytes_eq replicate ◌>>=◌
      ◌>>◌ child_of node_at set_child set_nth push_node node_at_depth
  split_leaf go m2 = refl

  insert_run :
      (m0 m1 m2 : M)
      → read 3 node_hash m0 ≡ (ok (some (node root_node)), m1)
      → read 1 hash_a m1 ≡ (ok (some (lone key_a (7 ∷ []))), m2)
      → insert_child read retire levels index.root 0 key_b new_child (index, m0)
        ≡ (ok (dirty 0), (after_insert, m2))
  unfolding insert_child
  insert_run m0 m1 m2 e1 e2 =
      let go = λ (sub : Option Child). insert_child read retire 52 sub 1 key_b new_child in
      let deeper = λ (sub : Option Child). insert_child read retire 51 sub 2 key_b new_child in
      bind_ok (on_store (read 3 node_hash))
        (insert_doc read retire go 52 0 key_b new_child node_hash 3) (index, m0) (index, m1)
        (some (node root_node)) (ap (beside index) e1)
      ∙ through_node go m1 m2 (
          bind_ok (on_store (read 1 hash_a))
            (insert_doc read retire deeper 51 1 key_b new_child hash_a 1) (with_node index, m1)
            (with_node index, m2) (some (lone key_a (7 ∷ []))) (ap (beside (with_node index)) e2)
          ∙ split_leaf deeper m2)

module _ {M : Type 0} (read : ℕ → List ℕ → Run M (Option TractDoc)) where
  find_below :
      (go : Child → Run M (Option (ℕ × List ℕ))) (m1 : M)
      → on_doc read (leaf_here read key_a) go key_a 0 3 node_hash (some (node root_node)) m1
        ≡ go (committed hash_a 1) m1
  unfolding on_doc chunk window byte_at bytes_eq replicate ◌>>=◌ ◌>>◌ child_of node_at set_child
      set_nth push_node node_at_depth
  find_below go m1 = refl

  find_here :
      (go : Child → Run M (Option (ℕ × List ℕ))) (m2 : M)
      → on_doc read (leaf_here read key_a) go key_a 1 1 hash_a (some (lone key_a (7 ∷ []))) m2
        ≡ (ok (some (1, hash_a)), m2)
  unfolding on_doc bytes_eq replicate
  find_here go m2 = refl

  find_run :
      (m0 m1 m2 : M)
      → read 3 node_hash m0 ≡ (ok (some (node root_node)), m1)
      → read 1 hash_a m1 ≡ (ok (some (lone key_a (7 ∷ []))), m2)
      → find_leaf read index key_a m0 ≡ (ok (some (1, hash_a)), m2)
  unfolding find_leaf descend_root descend
  find_run m0 m1 m2 e1 e2 =
      let go = descend read (leaf_here read key_a) index key_a 52 1 in
      let deeper = descend read (leaf_here read key_a) index key_a 51 2 in
      bind_ok (read 3 node_hash) (on_doc read (leaf_here read key_a) go key_a 0 3 node_hash) m0 m1
        (some (node root_node)) e1
      ∙ find_below go m1
      ∙ bind_ok (read 1 hash_a) (on_doc read (leaf_here read key_a) deeper key_a 1 1 hash_a) m1 m2
          (some (lone key_a (7 ∷ []))) e2
      ∙ find_here deeper m2

  abbrev put_root : Option Child → Run (Hamt × M) (Unit {0})
  put_root new = update (λ h. record h { root = new })

  abbrev pruned_node : Hamt
  pruned_node = set_child 0 0 none (push_removed 3 node_hash (with_node with_retired))

  prune_through :
      (go : Option Child → Run (Hamt × M) (Option Child)) (m1 : M)
      → go (some (committed hash_a 1)) (push_removed 3 node_hash (with_node with_retired), m1)
        ≡ (ok none, (push_removed 3 node_hash (with_node with_retired), m1))
      → prune_doc read go 0 key_a node_hash 3 (some (node root_node)) (with_retired, m1)
        ≡ (ok (some (dirty 0)), (pruned_node, m1))
  unfolding prune_doc edit_below chunk window byte_at bytes_eq replicate ◌>>=◌ ◌>>◌ child_of node_at
      set_child set_nth push_node node_at_depth
  prune_through go m1 e = rw e refl

  prune_here :
      (s : Hamt × M)
      → prune_child read 52 (some (committed hash_a 1)) 1 key_a (hash_a, 1) s ≡ (ok none, s)
  unfolding prune_child bytes_eq replicate
  prune_here s = refl

  prune_node :
      (m0 m1 : M)
      → read 3 node_hash m0 ≡ (ok (some (node root_node)), m1)
      → prune_child read levels index.root 0 key_a (hash_a, 1) (with_retired, m0)
        ≡ (ok (some (dirty 0)), (pruned_node, m1))
  unfolding prune_child bytes_eq replicate
  prune_node m0 m1 e1 =
      let go = λ (sub : Option Child). prune_child read 52 sub 1 key_a (hash_a, 1) in
      bind_ok (on_store (read 3 node_hash)) (prune_doc read go 0 key_a node_hash 3)
        (with_retired, m0) (with_retired, m1) (some (node root_node)) (ap (beside with_retired) e1)
      ∙ prune_through go m1 (prune_here (push_removed 3 node_hash (with_node with_retired), m1))

  prune_run :
      (m0 m1 : M)
      → read 3 node_hash m0 ≡ (ok (some (node root_node)), m1)
      → prune read key_a (hash_a, 1) (with_retired, m0) ≡ (ok tt, (after_prune, m1))
  unfolding prune after_prune ◌>>=◌
  prune_run m0 m1 e1 =
      bind_ok (prune_child read levels index.root 0 key_a (hash_a, 1)) put_root (with_retired, m0)
        (pruned_node, m1) (some (dirty 0)) (prune_node m0 m1 e1)

inserted-ok :
    insert_child
      (read_doc toy disk disk tract)
      (remove_leaf_blocks toy disk disk tract)
      levels
      index.root
      0
      key_b
      new_child
      (index, store)
    ≡ (ok (dirty 0), (after_insert, store2))
inserted-ok =
    insert_run (read_doc toy disk disk tract) (remove_leaf_blocks toy disk disk tract) store store1
      store2 at_node at_leaf

insert_child-find_example :
    IsTrie (docs_on toy blocks tract) after_insert.arena
    × StandsAt (docs_on toy blocks tract) after_insert.arena 0 key_b (dirty 0)
    × ((find toy disk disk tract key_b (rooted (dirty 0) after_insert, store2)).0
        ≡ ok (some (2, hash_b)))
    × ((find toy disk disk tract key_a (rooted (dirty 0) after_insert, store2)).0
        ≡ (find toy disk disk tract key_a (index, store)).0)
insert_child-find_example =
    insert_child-find toy medium medium blocks tract medium-IsHealthy medium-IsHealthy routed key_b
      2 hash_b key_a index after_insert store store2 (dirty 0) leaf_keys new_leaf key_a-IsKey
      a_is_not_b store-IsStable no_nodes (root_placed key_b) inserted-ok

-- The leaf of the first key has no furrows.
store2-IsStable : IsStable medium medium blocks store2
store2-IsStable = next-IsStable 1 hash_a store1 store1-IsStable

abbrev retired : Result (Unit {0}) × (Hamt × Mirror Disk Disk)
retired = remove_leaf_blocks toy disk disk tract 1 hash_a (index, store2)

abbrev store3 : Mirror Disk Disk
store3 = retired.1.1

abbrev store4 : Mirror Disk Disk
store4 = next 3 node_hash store3

retired_is :
    (retired.0 ≡ ok tt) × (retired.1.0 ≡ with_retired) × IsStable medium medium blocks store3
retired_is =
    remove_leaf_blocks-records toy medium medium blocks tract medium-IsHealthy medium-IsHealthy 1
      hash_a index store2 (some (lone key_a (7 ∷ []))) [] store2-IsStable a_named refl tt

deleted-ok :
    delete toy disk disk tract key_a unlink_only (index, store) ≡ (ok true, (after_prune, store4))
unfolding delete find zero_leaf
deleted-ok =
    let pruning = prune (read_doc toy disk disk tract) key_a (hash_a, 1) in
    let zeroing = on_store (zero_leaf toy disk disk tract unlink_only 1 hash_a) in
    let after = pruning >> pure true in
    let h2 : Hamt = with_retired in
    bind_ok (find toy disk disk tract key_a) (delete_found toy disk disk tract key_a unlink_only)
      (index, store) (index, store2) (some (1, hash_a))
      (ap (beside index)
        (find_run (read_doc toy disk disk tract) store store1 store2 at_node at_leaf))
    ∙ then_ok (remove_leaf_blocks toy disk disk tract 1 hash_a) (zeroing >> after) (index, store2)
        (h2, store3) (λ i. (retired_is.0 i, (retired_is.1 i, store3)))
    ∙ then_ok zeroing after (h2, store3) (h2, store3) refl
    ∙ then_ok pruning (pure true) (h2, store3) (after_prune, store4)
        (prune_run (read_doc toy disk disk tract) store3 store4
          (reads 3 node_hash store3 (node root_node) retired_is.2 node_named))

delete-find_example :
    IsTrie (docs_on toy blocks tract) after_prune.arena
    × SlotPlaced (docs_on toy blocks tract) after_prune.arena 0 key_a after_prune.root
    × ((find toy disk disk tract key_a (after_prune, store4)).0 ≡ ok none)
    × ((find toy disk disk tract key_b (after_prune, store4)).0
        ≡ (find toy disk disk tract key_b (index, store)).0)
delete-find_example =
    delete-find toy medium medium blocks tract medium-IsHealthy medium-IsHealthy routed key_a key_b
      index after_prune store store4 key_b-IsKey b_is_not_a store-IsStable no_nodes
      (root_placed key_a) deleted-ok

found_a : (find toy disk disk tract key_a (index, store)).0 ≡ ok (some (1, hash_a))
unfolding find
found_a =
    ap (λ x. x.0) (find_run (read_doc toy disk disk tract) store store1 store2 at_node at_leaf)

find-LeafAt_example : LeafAt (docs_on toy blocks tract) key_a 1 hash_a
find-LeafAt_example =
    find-LeafAt toy medium medium blocks tract medium-IsHealthy medium-IsHealthy key_a index store 1
      hash_a store-IsStable found_a
