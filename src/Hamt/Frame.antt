-- ===== src/Hamt/Frame.antt =====
-- src/hamt.rs: what keeps the trie sound: every pointer stands on the path that its node's `route`, or
-- its leaf's key, names; and what a change of the arena leaves as it was.
use manifestus.Base.{
  ℕ, zero, suc, ◌+◌, ◌≤◌, ◌<◌, ◌≡◌, ◌∙◌, ◌⊎◌, inl, inr, refl, sym, ap, subst, Bool, true, false,
  Option, none, some, List, [], get_elem?, leb, ◌==◌, ==_iff, if◌then◌else◌, arith,
}
use manifestus.Error.{Result, ok, err, stuck, and_then}
use manifestus.Hamt.Walk.{chunk, node_at_depth}
use manifestus.Hamt.Leaf.{Child, committed, dirty, Node}
use manifestus.Hamt.Doc.{TractDoc, node, lone, extent, direct, furrow, max_depth}
use manifestus.Hamt.State.{child_of}
use manifestus.Hamt.Seek.{Sought, onward, seek, seek_doc, arena_at, arena_at-ok}

-- Two keys with the same path above `depth`.
abbrev pub Agree : ℕ → List ℕ → List ℕ → Type 0
Agree depth k l = (i : ℕ) → i < depth → chunk k i ≡ chunk l i

pub Agree-next :
    (depth : ℕ) (k l : List ℕ)
    → Agree depth k l
    → chunk k depth ≡ chunk l depth
    → Agree (depth + 1) k l
Agree-next depth k l a e i h = go (i == depth) refl
  where
    go : (b : Bool) → (i == depth) ≡ b → chunk k i ≡ chunk l i
    go true q =
        let same : i ≡ depth = (==_iff i depth).0 q in
        ap (chunk k) same ∙ e ∙ ap (chunk l) (sym same)
    go false q = a i (ground arith)

-- The nodes of an arena, each kept with its depth and route, and changed only where `C` allows it.
abbrev pub Evolves : (Node → Type 0) → List Node → List Node → Type 0
Evolves C a b =
    (i : ℕ) (n : Node)
    → get_elem? a i ≡ some n
    → (n' : Node) × (get_elem? b i ≡ some n')
      × (n'.depth ≡ n.depth)
      × (n'.route ≡ n.route)
      × ((n' ≡ n) ⊎ C n)

module _ (docs : ℕ → List ℕ → Result (Option TractDoc)) where
  -- A document that a pointer at `depth` on the path of `key` may name.
  abbrev pub DocPlaced : ℕ → List ℕ → TractDoc → Type 0
  DocPlaced depth key (node n) = n.depth ≡ depth → Agree depth key n.route
  DocPlaced depth key (lone k v) = Agree depth key k
  DocPlaced depth key (direct k s f) = Agree depth key k
  DocPlaced depth key (extent k s r) = Agree depth key k
  DocPlaced depth key (furrow k i p) = Unit {0}

  abbrev pub StandsAt : List Node → ℕ → List ℕ → Child → Type 0
  StandsAt a depth key (dirty idx) =
      (n : Node) × (get_elem? a idx ≡ some n) × (n.depth ≡ depth) × Agree depth key n.route
  StandsAt a depth key (committed hash lba) =
      (doc : TractDoc) → docs lba hash ≡ ok (some doc) → DocPlaced depth key doc

  abbrev pub SlotPlaced : List Node → ℕ → List ℕ → Option Child → Type 0
  SlotPlaced a depth key none = Unit {0}
  SlotPlaced a depth key (some x) = StandsAt a depth key x

  -- Every child of the node stands on a path of the node's route and the child's own slot.
  abbrev pub IsRouted : List Node → Node → Type 0
  IsRouted a n =
      (s : ℕ) (x : Child) (key : List ℕ)
      → get_elem? n.children s ≡ some (some x)
      → Agree n.depth key n.route
      → chunk key n.depth ≡ s
      → StandsAt a (n.depth + 1) key x

  abbrev pub IsTrie : List Node → Type 0
  IsTrie a = (i : ℕ) (n : Node) → get_elem? a i ≡ some n → IsRouted a n

  -- The committed nodes are routed; none of their children is dirty.
  abbrev pub DocsRouted : Type 0
  DocsRouted =
      (lba : ℕ) (hash : List ℕ) (n : Node) → docs lba hash ≡ ok (some (node n)) → IsRouted [] n

  DocPlaced-Agree :
      (depth : ℕ) (k l : List ℕ) (doc : TractDoc)
      → Agree depth l k
      → DocPlaced depth k doc
      → DocPlaced depth l doc
  DocPlaced-Agree depth k l (node n) a p = λ e i h. a i h ∙ p e i h
  DocPlaced-Agree depth k l (lone x v) a p = λ i h. a i h ∙ p i h
  DocPlaced-Agree depth k l (direct x s f) a p = λ i h. a i h ∙ p i h
  DocPlaced-Agree depth k l (extent x s r) a p = λ i h. a i h ∙ p i h
  DocPlaced-Agree depth k l (furrow x i p') a p = tt

  pub StandsAt-Agree :
      (a : List Node) (depth : ℕ) (k l : List ℕ) (x : Child)
      → Agree depth l k
      → StandsAt a depth k x
      → StandsAt a depth l x
  StandsAt-Agree a depth k l (dirty idx) g (n, e, d, r) = (n, e, d, λ i h. g i h ∙ r i h)
  StandsAt-Agree a depth k l (committed hash lba) g p =
      λ doc e. DocPlaced-Agree depth k l doc g (p doc e)

  pub StandsAt-evolves :
      (C : Node → Type 0) (a b : List Node) (depth : ℕ) (key : List ℕ) (x : Child)
      → Evolves C a b
      → StandsAt a depth key x
      → StandsAt b depth key x
  StandsAt-evolves C a b depth key (committed hash lba) ev p = p
  StandsAt-evolves C a b depth key (dirty idx) ev (n, e, d, r) =
      let (n', e', d', r', c) = ev idx n e in
      (n', e', d' ∙ d, λ i h. r i h ∙ ap (λ (k : List ℕ). chunk k i) (sym r'))

  pub StandsAt-committed :
      (a : List Node) (depth : ℕ) (key : List ℕ) (x : Child)
      → StandsAt [] depth key x
      → StandsAt a depth key x
  StandsAt-committed a depth key (committed hash lba) p = p
  StandsAt-committed a depth key (dirty idx) (n, e, d, r) = absurd (cc e)

  and_then-cong :
      {X Y : Type 0} (r : Result X) (f g : X → Result Y)
      → ((x : X) → r ≡ ok x → f x ≡ g x)
      → and_then r f ≡ and_then r g
  and_then-cong (ok x) f g h = h x refl
  and_then-cong (err e) f g h = refl
  and_then-cong stuck f g h = refl

  -- A child that is read is one of the node's.
  pub child_of-ok :
      (n : Node) (key : List ℕ) (depth : ℕ) (x : Option Child)
      → child_of n key depth ≡ ok x
      → (leb max_depth depth ≡ false) × (get_elem? n.children (chunk key depth) ≡ some x)
  unfolding child_of
  child_of-ok n key depth x e = go (leb max_depth depth) refl e
    where
      found :
          (o : Option (Option Child))
          → elim o as (λ y. Result (Option Child)) [ none ↦ stuck | some y ↦ ok y ] ≡ ok x
          → o ≡ some x
      found none q = absurd (cc q)
      found (some y) q = cc q

      go :
          (b : Bool)
          → leb max_depth depth ≡ b
          → (if b
              then stuck
              else elim (get_elem? n.children (chunk key depth)) [ none ↦ stuck | some y ↦ ok y ])
            ≡ ok x
          → (leb max_depth depth ≡ false) × (get_elem? n.children (chunk key depth) ≡ some x)
      go true h q = absurd (cc q)
      go false h q = (h, found (get_elem? n.children (chunk key depth)) q)

  pub node_at_depth-ok :
      (claimed depth : ℕ) (x : Unit {0}) → node_at_depth claimed depth ≡ ok x → claimed ≡ depth
  unfolding node_at_depth
  node_at_depth-ok claimed depth x e = ground (arith, e)

  -- The child on the path of a key is placed one level down.
  pub routed_child :
      (a : List Node) (n : Node) (depth : ℕ) (key : List ℕ) (x : Child)
      → IsRouted a n
      → n.depth ≡ depth
      → Agree depth key n.route
      → get_elem? n.children (chunk key depth) ≡ some (some x)
      → StandsAt a (depth + 1) key x
  routed_child a n depth key x kids d r e =
      subst (λ (k : ℕ). StandsAt a (k + 1) key x) d
        (kids (chunk key depth) x key e (λ i h. r i (omega arith)) (ap (chunk key) d))

  pub IsRouted-committed : (a : List Node) (n : Node) → IsRouted [] n → IsRouted a n
  IsRouted-committed a n kids s x key e r c =
      StandsAt-committed a (n.depth + 1) key x (kids s x key e r c)

  -- The walk for `key` from `depth` on does not see the changes that `C` allows.
  module _ (C : Node → Type 0) (a b : List Node) (key : List ℕ) (trie : IsTrie a)
      (routed : DocsRouted) (ev : Evolves C a b) where
    abbrev pub Unseen : ℕ → Type 0
    Unseen from = (n : Node) → from ≤ n.depth → Agree n.depth key n.route → C n → ⊥

    pub frame_child :
        (left depth : ℕ) (n : Node)
        → n.depth ≡ depth
        → Agree depth key n.route
        → IsRouted a n
        → ((x : Child)
            → StandsAt a (depth + 1) key x
            → seek docs b key left (depth + 1) x ≡ seek docs a key left (depth + 1) x)
        → and_then (child_of n key depth) (λ sub. onward (seek docs b key left (depth + 1)) sub)
          ≡ and_then (child_of n key depth) (λ sub. onward (seek docs a key left (depth + 1)) sub)
    frame_child left depth n d r kids ih =
        and_then-cong (child_of n key depth) _ _
          (λ sub e. step sub (child_of-ok n key depth sub e).1)
      where
        step :
            (sub : Option Child)
            → get_elem? n.children (chunk key depth) ≡ some sub
            → onward (seek docs b key left (depth + 1)) sub
              ≡ onward (seek docs a key left (depth + 1)) sub
        step none e = refl
        step (some x) e = ih x (routed_child a n depth key x kids d r e)

    frame_doc :
        (left depth lba : ℕ) (hash : List ℕ) (doc : Option TractDoc)
        → docs lba hash ≡ ok doc
        → StandsAt a depth key (committed hash lba)
        → ((x : Child)
            → StandsAt a (depth + 1) key x
            → seek docs b key left (depth + 1) x ≡ seek docs a key left (depth + 1) x)
        → seek_doc (seek docs b key left (depth + 1)) key depth lba hash doc
          ≡ seek_doc (seek docs a key left (depth + 1)) key depth lba hash doc
    unfolding seek_doc
    frame_doc left depth lba hash none e p ih = refl
    frame_doc left depth lba hash (some (node n)) e p ih =
        and_then-cong (node_at_depth n.depth depth) _ _ (λ x q.
          let d : n.depth ≡ depth = node_at_depth-ok n.depth depth x q in
          frame_child left depth n d (p (node n) e d) (IsRouted-committed a n (routed lba hash n e))
            ih)
    frame_doc left depth lba hash (some (lone k v)) e p ih = refl
    frame_doc left depth lba hash (some (direct k s f)) e p ih = refl
    frame_doc left depth lba hash (some (extent k s r)) e p ih = refl
    frame_doc left depth lba hash (some (furrow k i q)) e p ih = refl

    pub seek-frame :
        (left depth : ℕ) (x : Child)
        → StandsAt a depth key x
        → Unseen depth
        → seek docs b key left depth x ≡ seek docs a key left depth x
    unfolding seek
    seek-frame zero depth x p u = refl
    seek-frame (suc left) depth (committed hash lba) p u =
        and_then-cong (docs lba hash) _ _ (λ doc e.
          frame_doc left depth lba hash doc e p
            (λ x q. seek-frame left (depth + 1) x q (λ n le. u n (omega arith))))
    seek-frame (suc left) depth (dirty idx) (n, e, d, r) u =
        let (n', e', d', r', c) = ev idx n e in
        same n' e' c (λ x q. seek-frame left (depth + 1) x q (λ m le. u m (omega arith)))
      where
        below : List Node → Node → Sought
        below arena m =
            and_then (child_of m key depth)
              (λ sub. onward (seek docs arena key left (depth + 1)) sub)

        same :
            (n' : Node)
            → get_elem? b idx ≡ some n'
            → (n' ≡ n) ⊎ C n
            → ((x : Child)
                → StandsAt a (depth + 1) key x
                → seek docs b key left (depth + 1) x ≡ seek docs a key left (depth + 1) x)
            → and_then (arena_at b idx) (below b) ≡ and_then (arena_at a idx) (below a)
        same n' e' (inr c) ih = absurd (u n (omega arith) (λ i h. r i (omega arith)) c)
        same n' e' (inl q) ih =
            ap (λ t. and_then t (below b)) (arena_at-ok b idx n' e')
            ∙ ap (below b) q
            ∙ frame_child left depth n d r (trie idx n e) ih
            ∙ ap (λ t. and_then t (below a)) (sym (arena_at-ok a idx n e))
