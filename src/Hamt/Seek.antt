-- ===== src/Hamt/Seek.antt =====
-- src/hamt.rs: what the index says of a key, without the reads: the leaf that its chunks lead to. The
-- documents that the pointers name are a function `docs`; the walk of the engine refines it.
use manifestus.Base.{
  ℕ, zero, suc, ◌+◌, ◌≡◌, refl, subst, Bool, true, false, Option, none, some, List, get_elem?,
  bytes_eq, if◌then◌else◌,
}
use manifestus.Error.{Result, Run, ok, err, stuck, corrupt, and_then, continue, ◌>>=◌, ◌>>◌, pure}
use manifestus.Hamt.Walk.{node_at_depth}
use manifestus.Hamt.Leaf.{Child, committed, dirty, Node}
use manifestus.Hamt.Doc.{TractDoc, node, lone, extent, direct, furrow}
use manifestus.Hamt.State.{Hamt, child_of, node_at}
use manifestus.Hamt.Trie.{levels, go_on, on_doc, descend, descend_root, leaf_here, find_leaf}

-- Where a key's leaf lies.
abbrev pub Sought : Type 0
Sought = Result (Option (ℕ × List ℕ))

abbrev pub onward : (Child → Sought) → Option Child → Sought
onward go none = ok none
onward go (some x) = go x

-- A leaf of the key `k`, looked at for `key`.
abbrev pub leaf_found : List ℕ → List ℕ → ℕ → List ℕ → Sought
leaf_found k key lba hash = if bytes_eq k key then ok (some (lba, hash)) else ok none

unfoldable pub seek_doc : (Child → Sought) → List ℕ → ℕ → ℕ → List ℕ → Option TractDoc → Sought
seek_doc go key depth lba hash none = ok none
seek_doc go key depth lba hash (some (node n)) =
    and_then (node_at_depth n.depth depth)
      (λ x. and_then (child_of n key depth) (λ sub. onward go sub))
seek_doc go key depth lba hash (some (furrow k i p)) = err (corrupt "furrow in index position")
seek_doc go key depth lba hash (some (lone k v)) = leaf_found k key lba hash
seek_doc go key depth lba hash (some (direct k s f)) = leaf_found k key lba hash
seek_doc go key depth lba hash (some (extent k s r)) = leaf_found k key lba hash

abbrev pub arena_at : List Node → ℕ → Result Node
arena_at arena idx = elim (get_elem? arena idx) [ none ↦ stuck | some n ↦ ok n ]

pub arena_at-ok :
    (arena : List Node) (idx : ℕ) (n : Node)
    → get_elem? arena idx ≡ some n
    → arena_at arena idx ≡ ok n
arena_at-ok arena idx n e = rw (arena_at, e) refl

module _ (docs : ℕ → List ℕ → Result (Option TractDoc)) where
  unfoldable pub seek : List Node → List ℕ → ℕ → ℕ → Child → Sought
  unfolding seek_doc
  seek arena key zero depth current = stuck
  seek arena key (suc left) depth (dirty idx) =
      and_then (arena_at arena idx)
        (λ n. and_then (child_of n key depth) (λ sub. onward (seek arena key left (depth + 1)) sub))
  seek arena key (suc left) depth (committed hash lba) =
      and_then (docs lba hash) (seek_doc (seek arena key left (depth + 1)) key depth lba hash)

  -- The leaf of a key, by the whole index.
  unfoldable pub leaf_of : Hamt → List ℕ → Sought
  unfolding seek
  leaf_of h key = onward (seek h.arena key levels 0) h.root

-- Reads that give the documents `docs`, and keep the store so that they do.
abbrev pub IsSteady :
    {M : Type 0}
    → (ℕ → List ℕ → Run M (Option TractDoc))
    → (M → Type 0)
    → (ℕ → List ℕ → Result (Option TractDoc))
    → Type 0
IsSteady {M} read Inv docs =
    (lba : ℕ) (hash : List ℕ) (m : M)
    → Inv m
    → ((read lba hash m).0 ≡ docs lba hash) × Inv (read lba hash m).1

module _ {M : Type 0} (read : ℕ → List ℕ → Run M (Option TractDoc)) (Inv : M → Type 0)
    (docs : ℕ → List ℕ → Result (Option TractDoc)) (steady : IsSteady read Inv docs) where
  -- A run that gives this result and keeps the store steady.
  abbrev Gives : {X : Type 0} → Result X × M → Result X → Type 0
  Gives x r = (x.0 ≡ r) × Inv x.1

  continue-Gives :
      {X Y : Type 0} (f : X → Run M Y) (x : Result X × M) (r : Result X) (g : X → Result Y)
      → Gives x r
      → ((a : X) (m : M) → Inv m → Gives (f a m) (g a))
      → Gives (continue f x) (and_then r g)
  continue-Gives f (ok a, m) r g (e, i) k = subst (λ t. Gives (f a m) (and_then t g)) e (k a m i)
  continue-Gives f (err x, m) r g (e, i) k =
      subst (λ t. Gives (continue f (err x, m)) (and_then t g)) e (refl, i)
  continue-Gives f (stuck, m) r g (e, i) k =
      subst (λ t. Gives (continue f (stuck, m)) (and_then t g)) e (refl, i)

  leaf_here-Gives :
      (k key : List ℕ) (lba : ℕ) (hash : List ℕ) (b : Bool) (m : M)
      → Inv m
      → Gives
          ((if b then pure {A = Option (ℕ × List ℕ)} (some (lba, hash)) else pure none) m)
          (if b then ok (some (lba, hash)) else ok none)
  leaf_here-Gives k key lba hash true m i = (refl, i)
  leaf_here-Gives k key lba hash false m i = (refl, i)

  go_on-Gives :
      (go : Child → Run M (Option (ℕ × List ℕ))) (g : Child → Sought)
      → ((x : Child) (m : M) → Inv m → Gives (go x m) (g x))
      → (sub : Option Child) (m : M) → Inv m
      → Gives (go_on read go sub m) (onward g sub)
  go_on-Gives go g k none m i = (refl, i)
  go_on-Gives go g k (some x) m i = k x m i

  on_doc-Gives :
      (go : Child → Run M (Option (ℕ × List ℕ))) (g : Child → Sought) (key : List ℕ)
      → (depth lba : ℕ) (hash : List ℕ) → ((x : Child) (m : M) → Inv m → Gives (go x m) (g x))
      → (doc : Option TractDoc) (m : M) → Inv m
      → Gives
          (on_doc read (leaf_here read key) go key depth lba hash doc m)
          (seek_doc g key depth lba hash doc)
  unfolding on_doc seek_doc ◌>>=◌ ◌>>◌
  on_doc-Gives go g key depth lba hash k none m i = (refl, i)
  on_doc-Gives go g key depth lba hash k (some (node n)) m i =
      continue-Gives _ (node_at_depth n.depth depth, m) _ _ (refl, i)
        (λ x m1 i1.
          continue-Gives _ (child_of n key depth, m1) _ _ (refl, i1)
            (λ sub m2 i2. go_on-Gives go g k sub m2 i2))
  on_doc-Gives go g key depth lba hash k (some (furrow a b d)) m i = (refl, i)
  on_doc-Gives go g key depth lba hash k (some (lone a b)) m i =
      leaf_here-Gives a key lba hash (bytes_eq a key) m i
  on_doc-Gives go g key depth lba hash k (some (direct a b d)) m i =
      leaf_here-Gives a key lba hash (bytes_eq a key) m i
  on_doc-Gives go g key depth lba hash k (some (extent a b d)) m i =
      leaf_here-Gives a key lba hash (bytes_eq a key) m i

  descend-Gives :
      (h : Hamt) (key : List ℕ) (left depth : ℕ) (x : Child) (m : M)
      → Inv m
      → Gives
          (descend read (leaf_here read key) h key left depth x m)
          (seek docs h.arena key left depth x)
  unfolding descend seek node_at ◌>>=◌
  descend-Gives h key zero depth x m i = (refl, i)
  descend-Gives h key (suc left) depth (dirty idx) m i =
      continue-Gives _ (arena_at h.arena idx, m) _ _ (refl, i)
        (λ n m1 i1.
          continue-Gives _ (child_of n key depth, m1) _ _ (refl, i1)
            (λ sub m2 i2.
              go_on-Gives _ _ (λ y m3. descend-Gives h key left (depth + 1) y m3) sub m2 i2))
  descend-Gives h key (suc left) depth (committed hash lba) m i =
      continue-Gives _ (read lba hash m) (docs lba hash) _ (steady lba hash m i)
        (on_doc-Gives _ _ key depth lba hash (λ y m1. descend-Gives h key left (depth + 1) y m1))

  -- Where the reads give the documents `docs`, `find_leaf` gives the leaf that the index has for the
  -- key, and the reads go on giving them.
  pub find_leaf-leaf_of :
      (h : Hamt) (key : List ℕ) (m : M)
      → Inv m
      → ((find_leaf read h key m).0 ≡ leaf_of docs h key) × Inv (find_leaf read h key m).1
  unfolding find_leaf descend_root leaf_of
  find_leaf-leaf_of h key m i =
      go_on-Gives _ _ (λ y m1. descend-Gives h key levels 0 y m1) h.root m i
