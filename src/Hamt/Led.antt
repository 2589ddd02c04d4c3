-- ===== src/Hamt/Led.antt =====
-- src/hamt.rs: where the walk by a key's chunks leads is a leaf of the key.
use manifestus.Base.{
  ℕ, zero, suc, ◌+◌, ◌≡◌, refl, subst, Bool, true, false, Option, none, some, List, bytes_eq,
  eq_of_bytes_eq, if◌then◌else◌,
}
use manifestus.Error.{Result, ok, err, stuck, and_then}
use manifestus.Hamt.Walk.{node_at_depth}
use manifestus.Hamt.Leaf.{Child, committed, dirty, Node}
use manifestus.Hamt.Doc.{TractDoc, node, lone, extent, direct, furrow}
use manifestus.Hamt.State.{Hamt, child_of}
use manifestus.Hamt.Trie.{levels}
use manifestus.Hamt.Seek.{Sought, onward, seek, seek_doc, leaf_found, leaf_of, arena_at}
use manifestus.Hamt.Split.{LeafAt, IsLeafOf}

-- A leaf that the index gives for a key is a leaf of that key.
module _ (docs : ℕ → List ℕ → Result (Option TractDoc)) (key : List ℕ) (lba : ℕ)
    (hash : List ℕ) where
  abbrev Led : Sought → Type 0
  Led r = r ≡ ok (some (lba, hash)) → LeafAt docs key lba hash

  and_then-Led :
      {X : Type 0} (r : Result X) (f : X → Sought)
      → ((x : X) → r ≡ ok x → Led (f x))
      → Led (and_then r f)
  and_then-Led (ok x) f h = h x refl
  and_then-Led (err e) f h = λ q. absurd (cc q)
  and_then-Led stuck f h = λ q. absurd (cc q)

  onward-Led :
      (go : Child → Sought) (o : Option Child) → ((x : Child) → Led (go x)) → Led (onward go o)
  onward-Led go none h = λ q. absurd (cc q)
  onward-Led go (some x) h = h x

  leaf_found-Led :
      (k : List ℕ) (l : ℕ) (hh : List ℕ) (doc : TractDoc)
      → docs l hh ≡ ok (some doc)
      → IsLeafOf docs k doc
      → Led (leaf_found k key l hh)
  leaf_found-Led k l hh doc named leaf = go (bytes_eq k key) refl
    where
      go : (b : Bool) → bytes_eq k key ≡ b → Led (if b then ok (some (l, hh)) else ok none)
      go false e q = absurd (cc q)
      go true e q =
          let pair : (l, hh) ≡ (lba, hash) = cc q in
          let at : LeafAt docs k l hh = record { doc = doc; named = named; leaf = leaf } in
          let at_key : LeafAt docs key l hh =
            subst (λ z. LeafAt docs z l hh) (eq_of_bytes_eq k key e) at in
          subst (λ (z : ℕ × List ℕ). LeafAt docs key z.0 z.1) pair at_key

  seek_doc-Led :
      (go : Child → Sought)
      → ((x : Child) → Led (go x))
      → (depth l : ℕ) (hh : List ℕ) (o : Option TractDoc) → docs l hh ≡ ok o
      → Led (seek_doc go key depth l hh o)
  unfolding seek_doc
  seek_doc-Led go h depth l hh none e = λ q. absurd (cc q)
  seek_doc-Led go h depth l hh (some (node n)) e =
      and_then-Led (node_at_depth n.depth depth) _
        (λ u w. and_then-Led (child_of n key depth) _ (λ sub z. onward-Led go sub h))
  seek_doc-Led go h depth l hh (some (furrow k i p)) e = λ q. absurd (cc q)
  seek_doc-Led go h depth l hh (some (lone k v)) e = leaf_found-Led k l hh (lone k v) e refl
  seek_doc-Led go h depth l hh (some (direct k s f)) e = leaf_found-Led k l hh (direct k s f) e refl
  seek_doc-Led go h depth l hh (some (extent k s r)) e = leaf_found-Led k l hh (extent k s r) e refl

  seek-Led : (a : List Node) (left depth : ℕ) (x : Child) → Led (seek docs a key left depth x)
  unfolding seek
  seek-Led a zero depth x = λ q. absurd (cc q)
  seek-Led a (suc left) depth (dirty idx) = and_then-Led (arena_at a idx) _ (λ n w.
      and_then-Led (child_of n key depth) _
        (λ sub z. onward-Led (seek docs a key left (depth + 1)) sub (seek-Led a left (depth + 1))))
  seek-Led a (suc left) depth (committed hh l) = and_then-Led (docs l hh) _ (λ o e.
      seek_doc-Led (seek docs a key left (depth + 1)) (seek-Led a left (depth + 1)) depth l hh o e)

  pub leaf_of-LeafAt :
      (h : Hamt) → leaf_of docs h key ≡ ok (some (lba, hash)) → LeafAt docs key lba hash
  unfolding leaf_of
  leaf_of-LeafAt h = onward-Led (seek docs h.arena key levels 0) h.root (seek-Led h.arena levels 0)
