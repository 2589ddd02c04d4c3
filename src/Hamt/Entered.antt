-- ===== src/Hamt/Entered.antt =====
-- src/hamt.rs, the steps that `insert_child` and `prune_child` share: a committed node enters the arena,
-- and the slot below a node of the arena is edited.
use manifestus.Base.{
  ℕ, suc, ◌+◌, ◌≡◌, ◌∙◌, sym, ap, subst, Option, none, some, List, [], ◌∷◌, ◌++◌, length, get_elem?,
}
use manifestus.Error.{Result, Run, ok, and_then}
use manifestus.Hamt.Walk.{chunk, node_at_depth}
use manifestus.Hamt.Leaf.{Child, committed, dirty, Node}
use manifestus.Hamt.Doc.{TractDoc, node}
use manifestus.Hamt.State.{Hamt, child_of, beside}
use manifestus.Hamt.Below.{Below, set_child-after}
use manifestus.Hamt.Seek.{Sought, onward, seek, seek_doc}
use manifestus.Hamt.Frame.{
  Agree, SlotPlaced, IsRouted, IsTrie, DocsRouted, routed_child, IsRouted-committed, child_of-ok,
  node_at_depth-ok, frame_child,
}
use manifestus.Hamt.Edit.{after, Edited, OnPath, seek-dirty, seek-child, edit-Edited}
use manifestus.Hamt.Split.{push-frame, push-Evolves, get-push, Evolves-after, Unchanged}

pub beside-ok :
    {M X : Type 0} (h : Hamt) (x : Result X × M) (a : X) (s : Hamt × M)
    → beside h x ≡ (ok a, s)
    → (x.0 ≡ ok a) × (s ≡ (h, x.1))
beside-ok {M} {X} h (r, m) a s e =
    (ap (λ (y : Result X × (Hamt × M)). y.0) e, sym (ap (λ (y : Result X × (Hamt × M)). y.1) e))

module _ (docs : ℕ → List ℕ → Result (Option TractDoc)) (key : List ℕ) where
  pub Edited-moved :
      (a b b' : List Node) (left depth : ℕ) (slot r : Option Child) (want : Sought)
      → b ≡ b'
      → Edited docs a b left depth key slot r want
      → Edited docs a b' left depth key slot r want
  Edited-moved a b b' left depth slot r want p d =
      subst (λ x. Edited docs a x left depth key slot r want) p d

  pub sub_placed :
      (a : List Node) (n : Node) (depth : ℕ) (sub : Option Child)
      → IsRouted docs a n
      → n.depth ≡ depth
      → Agree depth key n.route
      → get_elem? n.children (chunk key depth) ≡ some sub
      → SlotPlaced docs a (depth + 1) key sub
  sub_placed a n depth none kids d g e = tt
  sub_placed a n depth (some x) kids d g e = routed_child docs a n depth key x kids d g e

  pub seek_zeroed :
      (a : List Node) (l : List ℕ) (left depth lba : ℕ) (hash : List ℕ)
      → docs lba hash ≡ ok none
      → seek docs a l (suc left) depth (committed hash lba) ≡ ok none
  unfolding seek seek_doc
  seek_zeroed a l left depth lba hash e =
      ap (λ t. and_then t (seek_doc (seek docs a l left (depth + 1)) l depth lba hash)) e

module _ (docs : ℕ → List ℕ → Result (Option TractDoc)) (routed : DocsRouted docs)
    (key : List ℕ) where
  pub seek_node :
      (a : List Node) (l : List ℕ) (left depth lba : ℕ) (hash : List ℕ) (n : Node)
      → docs lba hash ≡ ok (some (node n))
      → node_at_depth n.depth depth ≡ ok tt
      → seek docs a l (suc left) depth (committed hash lba)
        ≡ and_then (child_of n l depth) (λ sub. onward (seek docs a l left (depth + 1)) sub)
  unfolding seek seek_doc
  seek_node a l left depth lba hash n e d =
      ap (λ t. and_then t (seek_doc (seek docs a l left (depth + 1)) l depth lba hash)) e
      ∙ ap
          (λ t. and_then t (λ x.
            and_then (child_of n l depth) (λ sub. onward (seek docs a l left (depth + 1)) sub)))
          d

  -- A committed node that entered the arena is walked as it was.
  pub entered :
      (a : List Node) (l : List ℕ) (left depth lba : ℕ) (hash : List ℕ) (n : Node)
      → IsTrie docs a
      → docs lba hash ≡ ok (some (node n))
      → node_at_depth n.depth depth ≡ ok tt
      → Agree depth l n.route
      → seek docs (a ++ n ∷ []) l (suc left) depth (dirty (length a))
        ≡ seek docs a l (suc left) depth (committed hash lba)
  entered a l left depth lba hash n trie e d g =
      seek-dirty docs (a ++ n ∷ []) l left depth (length a) n (get-push a n)
      ∙ frame_child docs Unchanged a (a ++ n ∷ []) l trie routed (push-Evolves a n) left depth n
          (node_at_depth-ok docs n.depth depth tt d) g
          (IsRouted-committed docs a n (routed lba hash n e))
          (λ x p. push-frame docs routed a n l left (depth + 1) x trie p)
      ∙ sym (seek_node a l left depth lba hash n e d)

  pub entered-Edited :
      (a b : List Node) (left depth lba : ℕ) (hash : List ℕ) (n : Node) (r : Option Child)
      (want : Sought)
      → IsTrie docs a
      → docs lba hash ≡ ok (some (node n))
      → node_at_depth n.depth depth ≡ ok tt
      → Agree depth key n.route
      → Edited docs (a ++ n ∷ []) b (suc left) depth key (some (dirty (length a))) r want
      → Edited docs a b (suc left) depth key (some (committed hash lba)) r want
  entered-Edited a b left depth lba hash n r want trie e d g whole = record {
    trie = whole.trie;
    placed = whole.placed;
    evolves = Evolves-after (OnPath depth key) a (a ++ n ∷ []) b (push-Evolves a n) whole.evolves;
    found = whole.found;
    others = λ l k ne ag.
        whole.others l k ne ag
        ∙ entered a l left depth lba hash n trie e d (λ i small. ag i small ∙ g i small);
  }

  -- What the level below did for the child, done for the node of the arena.
  pub Below-Edited :
      {M Y P : Type 0} (slot : Y → Option Child) (go : Option Child → Run (Hamt × M) Y)
      → (left depth idx : ℕ) (s t : Hamt × M) (n : Node) (want : Sought)
      → (b : Below slot go idx key depth s t) → IsTrie docs s.0.arena
      → get_elem? s.0.arena idx ≡ some n
      → n.depth ≡ depth
      → Agree depth key n.route
      → (SlotPlaced docs s.0.arena (depth + 1) key b.sub
          → seek docs s.0.arena key (suc left) depth (dirty idx)
            ≡ onward (seek docs s.0.arena key left (depth + 1)) b.sub
          → Edited docs s.0.arena b.h.arena left (depth + 1) key b.sub (slot b.made) want × P)
      → Edited docs s.0.arena t.0.arena
          (suc left)
          depth
          key
          (some (dirty idx))
          (some (dirty idx))
          want
        × P
  Below-Edited {M} slot go left depth idx s t n want b trie here d g ih =
      let same : some b.parent ≡ some n = sym b.here ∙ here in
      let p : b.parent ≡ n = cc same in
      let child : child_of n key depth ≡ ok b.sub =
        ap (λ m. child_of m key depth) (sym p) ∙ b.child in
      let (shallow, there) = child_of-ok docs n key depth b.sub child in
      let (below, kept_inv) =
        ih (sub_placed docs key s.0.arena n depth b.sub (trie idx n here) d g there)
          (seek-child docs s.0.arena key left depth idx n b.sub shallow here there) in
      let (kept, whole) =
        edit-Edited docs routed key left depth idx n s.0.arena b.h.arena b.sub (slot b.made) want
          shallow trie here d g there below in
      let ends : after key depth idx n (slot b.made) b.h.arena ≡ t.0.arena =
        sym (set_child-after b.h key depth idx n (slot b.made) kept)
        ∙ ap (λ (x : Hamt × M). x.0.arena) (sym b.ends) in
      (
        Edited-moved docs key s.0.arena (after key depth idx n (slot b.made) b.h.arena) t.0.arena
            (suc left) depth (some (dirty idx)) (some (dirty idx)) want ends whole,
        kept_inv,
      )
