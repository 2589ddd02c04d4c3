-- ===== src/Hamt/Separated.antt =====
-- src/hamt.rs, `split`: it ends for two distinct keys, and what it leaves behind finds both.
use manifestus.Base.{
  ℕ, suc, ◌+◌, ◌<◌, ◌≡◌, ◌≢◌, ◌∙◌, ◌⊎◌, inl, inr, refl, sym, ap, subst, Bool, true, false, Option,
  none, some, List, [], ◌∷◌, ◌++◌, length, get_elem?, replicate, bytes_eq, eq_of_bytes_eq,
  bytes_eq_refl, leb,
}
use manifestus.Error.{Result, ok}
use manifestus.Hamt.Walk.{chunk}
use manifestus.Hamt.Leaf.{Child, committed, dirty, Node}
use manifestus.Hamt.Doc.{TractDoc, max_depth}
use manifestus.Hamt.State.{new_node, set_nth}
use manifestus.Hamt.Seek.{onward, leaf_found, seek}
use manifestus.Hamt.Frame.{
  Agree, Agree-next, Evolves, StandsAt, IsRouted, IsTrie, DocsRouted, StandsAt-Agree,
}
use manifestus.Hamt.Edit.{get-set_same, get-set_other, nat_cases, seek-child}
use manifestus.Hamt.Split.{
  chunk_small, get-replicate, get-replicate_is, get-push, push-Evolves, Evolves-after, Unchanged,
  push-IsTrie, push-frame, LeafAt, seek-leaf, StandsAt-leaf,
}

abbrev nones : List (Option Child)
nones = replicate 32 none

-- The chunks are equal: a node of one child, over the chain below.
unfoldable pub one : List ℕ → ℕ → Child → Node
one ka depth r = record (new_node depth ka) { children = set_nth (chunk ka depth) (some r) nones }

-- The chunks differ: a node of two children.
unfoldable pub two : List ℕ → ℕ → List ℕ → List ℕ → ℕ → List ℕ → ℕ → Node
two ka la ha kb lb hb depth = record (new_node depth ka) {
  children =
      set_nth (chunk kb depth) (some (committed hb lb))
        (set_nth (chunk ka depth) (some (committed ha la)) nones);
}

pub leaf_found-same :
    (k : List ℕ) (lba : ℕ) (hash : List ℕ) → leaf_found k k lba hash ≡ ok (some (lba, hash))
leaf_found-same k lba hash = rw (bytes_eq_refl k) refl

pub leaf_found-other :
    (k l : List ℕ) (lba : ℕ) (hash : List ℕ) → k ≢ l → leaf_found k l lba hash ≡ ok none
leaf_found-other k l lba hash ne = go (bytes_eq k l) refl
  where
    go : (b : Bool) → bytes_eq k l ≡ b → leaf_found k l lba hash ≡ ok none
    go true h = absurd (ne (eq_of_bytes_eq k l h))
    go false h = rw h refl

module _ (docs : ℕ → List ℕ → Result (Option TractDoc)) where
  -- The slot `r` of the arena `b`, which grew from `a`: `kb` is found at its leaf, any other key as the
  -- leaf of `ka` has it.
  pub record Separated (a b : List Node) (left depth : ℕ) (ka : List ℕ) (la : ℕ) (ha : List ℕ)
      (kb : List ℕ) (lb : ℕ) (hb : List ℕ) (r : Child) : Type 0 where
    pub trie : IsTrie docs b
    pub placed : StandsAt docs b depth kb r
    pub grows : Evolves Unchanged a b
    pub found : seek docs b kb left depth r ≡ ok (some (lb, hb))
    pub others :
        (l : List ℕ)
        → l ≢ kb
        → Agree depth l kb
        → seek docs b l left depth r ≡ leaf_found ka l la ha

  module _ (routed : DocsRouted docs) (ka : List ℕ) (la : ℕ) (ha : List ℕ) (kb : List ℕ) (lb : ℕ)
      (hb : List ℕ) (leaf_a : LeafAt docs ka la ha) (leaf_b : LeafAt docs kb lb hb) where
    abbrev Done : List Node → List Node → ℕ → ℕ → Child → Type 0
    Done a b left depth r = Separated a b left depth ka la ha kb lb hb r

    module _ (a b : List Node) (left depth : ℕ) (r : Child) (shallow : leb max_depth depth ≡ false)
        (g : Agree depth ka kb) (same : chunk ka depth ≡ chunk kb depth)
        (below : Done a b left (depth + 1) r) where
      one_child :
          get_elem? (set_nth (chunk ka depth) (some r) nones) (chunk ka depth) ≡ some (some r)
      one_child =
          get-set_same (chunk ka depth) (some r) none nones
            (get-replicate 32 (chunk ka depth) none (chunk_small ka depth))

      one-IsRouted : IsRouted docs b (one ka depth r)
      unfolding one
      one-IsRouted s x l e p q = go (nat_cases (chunk ka depth) s)
        where
          go : (chunk ka depth ≡ s) ⊎ (chunk ka depth ≢ s) → StandsAt docs b (depth + 1) l x
          go (inr h) =
              let other : get_elem? nones s ≡ some (some x) =
                sym (get-set_other (chunk ka depth) s (some r) nones h) ∙ e in
              let no : none ≡ some x = get-replicate_is 32 s none (some x) other in absurd (cc no)
          go (inl h) =
              let both : some (some r) ≡ some (some x) =
                sym one_child ∙ ap (get_elem? (set_nth (chunk ka depth) (some r) nones)) h ∙ e in
              let y : r ≡ x = cc both in
              let way : Agree (depth + 1) l kb =
                Agree-next depth l kb (λ i h'. p i h' ∙ g i h') (q ∙ sym h ∙ same) in
              subst (λ z. StandsAt docs b (depth + 1) l z) y
                (StandsAt-Agree docs b (depth + 1) kb l r way below.placed)

      one-seek :
          (l : List ℕ)
          → Agree depth l kb
          → chunk ka depth ≡ chunk l depth
          → seek docs (b ++ one ka depth r ∷ []) l (suc left) depth (dirty (length b))
            ≡ seek docs b l left (depth + 1) r
      unfolding one
      one-seek l p h =
          seek-child docs (b ++ one ka depth r ∷ []) l left depth (length b) (one ka depth r)
            (some r) shallow (get-push b (one ka depth r))
            (sym (ap (get_elem? (set_nth (chunk ka depth) (some r) nones)) h) ∙ one_child)
          ∙ push-frame docs routed b (one ka depth r) l left (depth + 1) r below.trie (
              StandsAt-Agree docs b (depth + 1) kb l r (Agree-next depth l kb p (sym h ∙ same))
                below.placed)

      one_else :
          (l : List ℕ)
          → chunk ka depth ≢ chunk l depth
          → seek docs (b ++ one ka depth r ∷ []) l (suc left) depth (dirty (length b)) ≡ ok none
      unfolding one
      one_else l h =
          seek-child docs (b ++ one ka depth r ∷ []) l left depth (length b) (one ka depth r) none
            shallow (get-push b (one ka depth r))
            (get-set_other (chunk ka depth) (chunk l depth) (some r) nones h
              ∙ get-replicate 32 (chunk l depth) none (chunk_small l depth))

      pub one-Separated : Done a (b ++ one ka depth r ∷ []) (suc left) depth (dirty (length b))
      unfolding one
      one-Separated = record {
        trie = push-IsTrie docs b (one ka depth r) below.trie one-IsRouted;
        placed = (one ka depth r, get-push b (one ka depth r), refl, λ i h. sym (g i h));
        grows =
            Evolves-after Unchanged a b (b ++ one ka depth r ∷ []) below.grows
              (push-Evolves b (one ka depth r));
        found = one-seek kb (λ i h. refl) same ∙ below.found;
        others = λ l ne p. elim (nat_cases (chunk ka depth) (chunk l depth)) [
          | inl h ↦ one-seek l p h ∙ below.others l ne (Agree-next depth l kb p (sym h ∙ same))
          | inr h ↦
              one_else l h ∙ sym (leaf_found-other ka l la ha (λ e. h (ap (λ k. chunk k depth) e)))
        ];
      }

    module _ (a : List Node) (left depth : ℕ) (shallow : leb max_depth depth ≡ false)
        (trie_a : IsTrie docs a) (g : Agree depth ka kb)
        (apart : chunk ka depth ≢ chunk kb depth) where
      first : List (Option Child)
      first = set_nth (chunk ka depth) (some (committed ha la)) nones

      both_kids : List (Option Child)
      unfolding first
      both_kids = set_nth (chunk kb depth) (some (committed hb lb)) first

      blank : (s : ℕ) → s < 32 → chunk ka depth ≢ s → get_elem? first s ≡ some none
      unfolding first
      blank s h n =
          get-set_other (chunk ka depth) s (some (committed ha la)) nones n
          ∙ get-replicate 32 s none h

      kid_b : get_elem? both_kids (chunk kb depth) ≡ some (some (committed hb lb))
      unfolding both_kids
      kid_b =
          get-set_same (chunk kb depth) (some (committed hb lb)) none first
            (blank (chunk kb depth) (chunk_small kb depth) apart)

      kid_a : get_elem? both_kids (chunk ka depth) ≡ some (some (committed ha la))
      unfolding both_kids first
      kid_a =
          get-set_other (chunk kb depth) (chunk ka depth) (some (committed hb lb)) first
            (λ e. apart (sym e))
          ∙ get-set_same (chunk ka depth) (some (committed ha la)) none nones
              (get-replicate 32 (chunk ka depth) none (chunk_small ka depth))

      kid_none :
          (s : ℕ)
          → s < 32
          → chunk ka depth ≢ s
          → chunk kb depth ≢ s
          → get_elem? both_kids s ≡ some none
      unfolding both_kids
      kid_none s h m n =
          get-set_other (chunk kb depth) s (some (committed hb lb)) first n ∙ blank s h m

      kid_there :
          (s : ℕ) (x : Child)
          → get_elem? both_kids s ≡ some (some x)
          → chunk ka depth ≢ s
          → chunk kb depth ≢ s
          → ⊥
      unfolding both_kids first
      kid_there s x e m n =
          let other : get_elem? nones s ≡ some (some x) =
            sym (get-set_other (chunk ka depth) s (some (committed ha la)) nones m)
            ∙ sym (get-set_other (chunk kb depth) s (some (committed hb lb)) first n)
            ∙ e in
          let no : none ≡ some x = get-replicate_is 32 s none (some x) other in cc no

      two-IsRouted : IsRouted docs a (two ka la ha kb lb hb depth)
      unfolding two both_kids first
      two-IsRouted s x l e p q = go (nat_cases (chunk ka depth) s) (nat_cases (chunk kb depth) s)
        where
          go :
              (chunk ka depth ≡ s) ⊎ (chunk ka depth ≢ s)
              → (chunk kb depth ≡ s) ⊎ (chunk kb depth ≢ s)
              → StandsAt docs a (depth + 1) l x
          go (inr m) (inr n) = absurd (kid_there s x e m n)
          go (inl h) k =
              let both : some (some (committed ha la)) ≡ some (some x) =
                sym kid_a ∙ ap (get_elem? both_kids) h ∙ e in
              let y : committed ha la ≡ x = cc both in
              subst (λ z. StandsAt docs a (depth + 1) l z) y
                (StandsAt-leaf docs a (depth + 1) ka l la ha leaf_a
                  (Agree-next depth l ka p (q ∙ sym h)))
          go (inr m) (inl h) =
              let both : some (some (committed hb lb)) ≡ some (some x) =
                sym kid_b ∙ ap (get_elem? both_kids) h ∙ e in
              let y : committed hb lb ≡ x = cc both in
              subst (λ z. StandsAt docs a (depth + 1) l z) y
                (StandsAt-leaf docs a (depth + 1) kb l lb hb leaf_b
                  (Agree-next depth l kb (λ i h'. p i h' ∙ g i h') (q ∙ sym h)))

      two-seek :
          (l : List ℕ) (x : Option Child)
          → get_elem? both_kids (chunk l depth) ≡ some x
          → seek docs
              (a ++ two ka la ha kb lb hb depth ∷ [])
              l
              (suc (suc left))
              depth
              (dirty (length a))
            ≡ onward (seek docs (a ++ two ka la ha kb lb hb depth ∷ []) l (suc left) (depth + 1)) x
      unfolding two both_kids first
      two-seek l x e =
          seek-child docs (a ++ two ka la ha kb lb hb depth ∷ []) l (suc left) depth (length a)
            (two ka la ha kb lb hb depth) x shallow (get-push a (two ka la ha kb lb hb depth)) e

      two_b :
          (l : List ℕ)
          → chunk kb depth ≡ chunk l depth
          → seek docs
              (a ++ two ka la ha kb lb hb depth ∷ [])
              l
              (suc (suc left))
              depth
              (dirty (length a))
            ≡ leaf_found kb l lb hb
      two_b l h =
          two-seek l (some (committed hb lb)) (sym (ap (get_elem? both_kids) h) ∙ kid_b)
          ∙ seek-leaf docs (a ++ two ka la ha kb lb hb depth ∷ []) kb l left (depth + 1) lb hb
              leaf_b

      two_a :
          (l : List ℕ)
          → chunk ka depth ≡ chunk l depth
          → seek docs
              (a ++ two ka la ha kb lb hb depth ∷ [])
              l
              (suc (suc left))
              depth
              (dirty (length a))
            ≡ leaf_found ka l la ha
      two_a l h =
          two-seek l (some (committed ha la)) (sym (ap (get_elem? both_kids) h) ∙ kid_a)
          ∙ seek-leaf docs (a ++ two ka la ha kb lb hb depth ∷ []) ka l left (depth + 1) la ha
              leaf_a

      two_others :
          (l : List ℕ)
          → l ≢ kb
          → (chunk ka depth ≡ chunk l depth) ⊎ (chunk ka depth ≢ chunk l depth)
          → (chunk kb depth ≡ chunk l depth) ⊎ (chunk kb depth ≢ chunk l depth)
          → seek docs
              (a ++ two ka la ha kb lb hb depth ∷ [])
              l
              (suc (suc left))
              depth
              (dirty (length a))
            ≡ leaf_found ka l la ha
      two_others l ne (inl h) k = two_a l h
      two_others l ne (inr m) (inl h) =
          two_b l h
          ∙ leaf_found-other kb l lb hb (λ e. ne (sym e))
          ∙ sym (leaf_found-other ka l la ha (λ e. m (ap (λ k. chunk k depth) e)))
      two_others l ne (inr m) (inr n) =
          two-seek l none (kid_none (chunk l depth) (chunk_small l depth) m n)
          ∙ sym (leaf_found-other ka l la ha (λ e. m (ap (λ k. chunk k depth) e)))

      pub two-Separated :
          Done a (a ++ two ka la ha kb lb hb depth ∷ []) (suc (suc left)) depth (dirty (length a))
      unfolding two
      two-Separated = record {
        trie = push-IsTrie docs a (two ka la ha kb lb hb depth) trie_a two-IsRouted;
        placed = (
          two ka la ha kb lb hb depth,
          get-push a (two ka la ha kb lb hb depth),
          refl,
          λ i h. sym (g i h),
        );
        grows = push-Evolves a (two ka la ha kb lb hb depth);
        found = two_b kb refl ∙ leaf_found-same kb lb hb;
        others = λ l ne p.
            two_others l ne (nat_cases (chunk ka depth) (chunk l depth))
              (nat_cases (chunk kb depth) (chunk l depth));
      }
