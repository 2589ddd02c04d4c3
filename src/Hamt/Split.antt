-- ===== src/Hamt/Split.antt =====
-- src/hamt.rs, `split`: two distinct keys are always separated, and both are found below the chain.
use manifestus.Base.{
  ℕ, zero, suc, ◌+◌, ◌<◌, ◌≡◌, ◌∙◌, ◌⊎◌, inl, inr, refl, sym, ap, subst, Option, some, List, [],
  ◌∷◌, ◌++◌, length, get_elem?, replicate, arith,
}
use manifestus.Error.{Result, ok, and_then}
use manifestus.Hamt.Walk.{chunk}
use manifestus.Hamt.Leaf.{Child, committed, Node}
use manifestus.Hamt.Doc.{TractDoc, node, lone, extent, direct, furrow}
use manifestus.Hamt.Seek.{Sought, leaf_found, seek, seek_doc}
use manifestus.Hamt.Frame.{
  Agree, Evolves, DocPlaced, StandsAt, IsRouted, IsTrie, DocsRouted, StandsAt-evolves, seek-frame,
}

pub chunk_small : (key : List ℕ) (depth : ℕ) → chunk key depth < 32
unfolding chunk
chunk_small key depth = omega arith

pub get-replicate : {A : Type 0} (n i : ℕ) (x : A) → i < n → get_elem? (replicate n x) i ≡ some x
unfolding replicate
get-replicate zero i x h = absurd (omega arith)
get-replicate (suc n) zero x h = refl
get-replicate (suc n) (suc i) x h = get-replicate n i x (omega arith)

pub get-replicate_is :
    {A : Type 0} (n i : ℕ) (x y : A) → get_elem? (replicate n x) i ≡ some y → x ≡ y
unfolding replicate
get-replicate_is zero i x y e = absurd (cc e)
get-replicate_is (suc n) zero x y e = cc e
get-replicate_is (suc n) (suc i) x y e = get-replicate_is n i x y e

-- A node at the end of the arena.
pub get-push : (a : List Node) (n : Node) → get_elem? (a ++ n ∷ []) (length a) ≡ some n
get-push [] n = refl
get-push (x ∷ a) n = get-push a n

get-push_old :
    (a : List Node) (n : Node) (i : ℕ) (m : Node)
    → get_elem? a i ≡ some m
    → get_elem? (a ++ n ∷ []) i ≡ some m
get-push_old [] n i m e = absurd (cc e)
get-push_old (x ∷ a) n zero m e = e
get-push_old (x ∷ a) n (suc i) m e = get-push_old a n i m e

get-push_cases :
    (a : List Node) (n : Node) (i : ℕ) (m : Node)
    → get_elem? (a ++ n ∷ []) i ≡ some m
    → (get_elem? a i ≡ some m) ⊎ (n ≡ m)
get-push_cases [] n zero m e = inr (cc e)
get-push_cases [] n (suc i) m e = absurd (cc e)
get-push_cases (x ∷ a) n zero m e = inl e
get-push_cases (x ∷ a) n (suc i) m e = get-push_cases a n i m e

-- An arena that only grows.
abbrev pub Unchanged : Node → Type 0
Unchanged n = ⊥

pub push-Evolves : (a : List Node) (n : Node) → Evolves Unchanged a (a ++ n ∷ [])
push-Evolves a n i m e = (m, get-push_old a n i m e, refl, refl, inl refl)

pub Evolves-weaken :
    (C D : Node → Type 0) (a b : List Node)
    → ((n : Node) → C n → D n)
    → Evolves C a b
    → Evolves D a b
Evolves-weaken C D a b f ev i n e = let (n', e', d, r, c) = ev i n e in (n', e', d, r, go c)
  where
    go : {n' : Node} → (n' ≡ n) ⊎ C n → (n' ≡ n) ⊎ D n
    go (inl q) = inl q
    go (inr q) = inr (f n q)

-- First without a change, then with those that `C` allows.
pub Evolves-after :
    (C : Node → Type 0) (a b c : List Node) → Evolves Unchanged a b → Evolves C b c → Evolves C a c
Evolves-after C a b c f g i n e =
    let (n1, e1, d1, r1, c1) = f i n e in
    let p : n1 ≡ n = same c1 in
    let (n2, e2, d2, r2, c2) = g i n (e1 ∙ ap (λ m. some m) p) in (n2, e2, d2, r2, c2)
  where
    same : {n1 : Node} → (n1 ≡ n) ⊎ ⊥ → n1 ≡ n
    same (inl q) = q
    same (inr q) = absurd q

module _ (docs : ℕ → List ℕ → Result (Option TractDoc)) where
  pub push-IsTrie :
      (a : List Node) (n : Node) → IsTrie docs a → IsRouted docs a n → IsTrie docs (a ++ n ∷ [])
  push-IsTrie a n trie kids i m e s x l c g q =
      StandsAt-evolves docs Unchanged a (a ++ n ∷ []) (m.depth + 1) l x (push-Evolves a n)
        (go (get-push_cases a n i m e))
    where
      go : (get_elem? a i ≡ some m) ⊎ (n ≡ m) → StandsAt docs a (m.depth + 1) l x
      go (inl h) = trie i m h s x l c g q
      go (inr h) = (subst (λ y. IsRouted docs a y) h kids) s x l c g q

  -- The walk does not see a node that is pushed.
  pub push-frame :
      (routed : DocsRouted docs) (a : List Node) (n : Node) (l : List ℕ) (left depth : ℕ)
      (x : Child)
      → IsTrie docs a
      → StandsAt docs a depth l x
      → seek docs (a ++ n ∷ []) l left depth x ≡ seek docs a l left depth x
  push-frame routed a n l left depth x trie p =
      seek-frame docs Unchanged a (a ++ n ∷ []) l trie routed (push-Evolves a n) left depth x p
        (λ m le g c. c)

  -- The document of a leaf of the key `k`.
  abbrev pub IsLeafOf : List ℕ → TractDoc → Type 0
  IsLeafOf k (node n) = ⊥
  IsLeafOf k (furrow x i p) = ⊥
  IsLeafOf k (lone x v) = x ≡ k
  IsLeafOf k (direct x s f) = x ≡ k
  IsLeafOf k (extent x s r) = x ≡ k

  pub record LeafAt (k : List ℕ) (lba : ℕ) (hash : List ℕ) : Type 0 where
    pub doc : TractDoc
    pub named : docs lba hash ≡ ok (some doc)
    pub leaf : IsLeafOf k doc

  seek_doc-leaf :
      (go : Child → Sought) (k key : List ℕ) (depth lba : ℕ) (hash : List ℕ) (doc : TractDoc)
      → IsLeafOf k doc
      → seek_doc go key depth lba hash (some doc) ≡ leaf_found k key lba hash
  unfolding seek_doc
  seek_doc-leaf go k key depth lba hash (node n) p = absurd p
  seek_doc-leaf go k key depth lba hash (furrow x i q) p = absurd p
  seek_doc-leaf go k key depth lba hash (lone x v) p = ap (λ y. leaf_found y key lba hash) p
  seek_doc-leaf go k key depth lba hash (direct x s f) p = ap (λ y. leaf_found y key lba hash) p
  seek_doc-leaf go k key depth lba hash (extent x s r) p = ap (λ y. leaf_found y key lba hash) p

  pub seek-leaf :
      (a : List Node) (k key : List ℕ) (left depth lba : ℕ) (hash : List ℕ)
      → LeafAt k lba hash
      → seek docs a key (suc left) depth (committed hash lba) ≡ leaf_found k key lba hash
  unfolding seek
  seek-leaf a k key left depth lba hash at =
      ap (λ t. and_then t (seek_doc (seek docs a key left (depth + 1)) key depth lba hash)) at.named
      ∙ seek_doc-leaf (seek docs a key left (depth + 1)) k key depth lba hash at.doc at.leaf

  DocPlaced-leaf :
      (depth : ℕ) (k key : List ℕ) (doc : TractDoc)
      → IsLeafOf k doc
      → Agree depth key k
      → DocPlaced docs depth key doc
  DocPlaced-leaf depth k key (node n) p g = absurd p
  DocPlaced-leaf depth k key (furrow x i q) p g = tt
  DocPlaced-leaf depth k key (lone x v) p g = λ i h. g i h ∙ ap (λ y. chunk y i) (sym p)
  DocPlaced-leaf depth k key (direct x s f) p g = λ i h. g i h ∙ ap (λ y. chunk y i) (sym p)
  DocPlaced-leaf depth k key (extent x s r) p g = λ i h. g i h ∙ ap (λ y. chunk y i) (sym p)

  pub StandsAt-leaf :
      (a : List Node) (depth : ℕ) (k key : List ℕ) (lba : ℕ) (hash : List ℕ)
      → LeafAt k lba hash
      → Agree depth key k
      → StandsAt docs a depth key (committed hash lba)
  StandsAt-leaf a depth k key lba hash at g doc e =
      let both : ok (some at.doc) ≡ ok (some doc) = sym at.named ∙ e in
      let p : at.doc ≡ doc = cc both in
      subst (λ y. DocPlaced docs depth key y) p (DocPlaced-leaf depth k key at.doc at.leaf g)
