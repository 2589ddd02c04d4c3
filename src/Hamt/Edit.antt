-- ===== src/Hamt/Edit.antt =====
-- src/hamt.rs: one level of a copy-on-write edit: a child of a node of the arena is replaced by what
-- the level below made of it.
use manifestus.Base.{
  ℕ, zero, suc, ◌+◌, ◌≤◌, ◌≡◌, ◌≢◌, ◌∙◌, ◌⊎◌, inl, inr, refl, sym, ap, subst, Bool, true, false,
  Option, none, some, List, [], ◌∷◌, get_elem?, leb, ◌==◌, ==_iff, arith,
}
use manifestus.Error.{Result, ok, stuck, and_then}
use manifestus.Hamt.Walk.{chunk}
use manifestus.Hamt.Leaf.{Child, dirty, Node}
use manifestus.Hamt.Doc.{TractDoc, max_depth}
use manifestus.Hamt.State.{child_of, set_nth}
use manifestus.Hamt.Keys.{IsKey}
use manifestus.Hamt.Seek.{Sought, onward, seek, arena_at-ok}
use manifestus.Hamt.Frame.{
  SlotPlaced, Agree, Agree-next, Evolves, StandsAt, IsRouted, IsTrie, DocsRouted, StandsAt-Agree,
  StandsAt-evolves, Unseen, frame_child, seek-frame,
}

pub get-set_same :
    {A : Type 0} (i : ℕ) (x y : A) (xs : List A)
    → get_elem? xs i ≡ some y
    → get_elem? (set_nth i x xs) i ≡ some x
unfolding set_nth
get-set_same i x y [] e = absurd (cc e)
get-set_same zero x y (z ∷ xs) e = refl
get-set_same (suc i) x y (z ∷ xs) e = get-set_same i x y xs e

pub get-set_other :
    {A : Type 0} (i j : ℕ) (x : A) (xs : List A)
    → i ≢ j
    → get_elem? (set_nth i x xs) j ≡ get_elem? xs j
unfolding set_nth
get-set_other i j x [] h = refl
get-set_other zero zero x (z ∷ xs) h = absurd (h refl)
get-set_other zero (suc j) x (z ∷ xs) h = refl
get-set_other (suc i) zero x (z ∷ xs) h = refl
get-set_other (suc i) (suc j) x (z ∷ xs) h = get-set_other i j x xs (λ e. h (ap suc e))

pub nat_cases : (i j : ℕ) → (i ≡ j) ⊎ (i ≢ j)
nat_cases i j = go (i == j) refl
  where
    go : (b : Bool) → (i == j) ≡ b → (i ≡ j) ⊎ (i ≢ j)
    go true h = inl ((==_iff i j).0 h)
    go false h = inr (λ e. ground (arith, e))

-- The nodes at `depth` or deeper on the path of `key`.
abbrev pub OnPath : ℕ → List ℕ → Node → Type 0
OnPath depth key n = (depth ≤ n.depth) × Agree n.depth key n.route

-- The node with the child replaced, and the arena with the node replaced.
unfoldable pub edited : List ℕ → ℕ → Node → Option Child → Node
edited key depth n r = record n { children = set_nth (chunk key depth) r n.children }

unfoldable pub after : List ℕ → ℕ → ℕ → Node → Option Child → List Node → List Node
unfolding edited
after key depth idx n r b = set_nth idx (edited key depth n r) b

module _ (docs : ℕ → List ℕ → Result (Option TractDoc)) where
  -- A slot of the arena `a` became `r` in the arena `b`: `key` is found as `want`, and every other key
  -- that the slot serves is found as before.
  pub record Edited (a b : List Node) (left depth : ℕ) (key : List ℕ) (slot r : Option Child)
      (want : Sought) : Type 0 where
    pub trie : IsTrie docs b
    pub placed : SlotPlaced docs b depth key r
    pub evolves : Evolves (OnPath depth key) a b
    pub found : onward (seek docs b key left depth) r ≡ want
    pub others :
        (l : List ℕ)
        → IsKey l
        → l ≢ key
        → Agree depth l key
        → onward (seek docs b l left depth) r ≡ onward (seek docs a l left depth) slot

  SlotPlaced-Agree :
      (a : List Node) (depth : ℕ) (k l : List ℕ) (x : Option Child)
      → Agree depth l k
      → SlotPlaced docs a depth k x
      → SlotPlaced docs a depth l x
  SlotPlaced-Agree a depth k l none g p = tt
  SlotPlaced-Agree a depth k l (some x) g p = StandsAt-Agree docs a depth k l x g p

  child_of-get :
      (n : Node) (key : List ℕ) (depth : ℕ) (o : Option (Option Child))
      → leb max_depth depth ≡ false
      → get_elem? n.children (chunk key depth) ≡ o
      → child_of n key depth ≡ elim o [ none ↦ stuck | some x ↦ ok x ]
  unfolding child_of
  child_of-get n key depth o h e = rw (child_of, h, e) refl

  pub seek-dirty :
      (a : List Node) (l : List ℕ) (left depth idx : ℕ) (n : Node)
      → get_elem? a idx ≡ some n
      → seek docs a l (suc left) depth (dirty idx)
        ≡ and_then (child_of n l depth) (λ sub. onward (seek docs a l left (depth + 1)) sub)
  unfolding seek
  seek-dirty a l left depth idx n e =
      ap
        (λ t.
          and_then t (λ m.
            and_then (child_of m l depth) (λ sub. onward (seek docs a l left (depth + 1)) sub)))
        (arena_at-ok a idx n e)

  pub seek-child :
      (a : List Node) (l : List ℕ) (left depth idx : ℕ) (n : Node) (x : Option Child)
      → leb max_depth depth ≡ false
      → get_elem? a idx ≡ some n
      → get_elem? n.children (chunk l depth) ≡ some x
      → seek docs a l (suc left) depth (dirty idx) ≡ onward (seek docs a l left (depth + 1)) x
  seek-child a l left depth idx n x h e c =
      seek-dirty a l left depth idx n e
      ∙ ap (λ t. and_then t (λ sub. onward (seek docs a l left (depth + 1)) sub))
          (child_of-get n l depth (some x) h c)

  module _ (routed : DocsRouted docs) (key : List ℕ) (left depth idx : ℕ) (n : Node)
      (a b : List Node) (sub r : Option Child) (want : Sought)
      (shallow : leb max_depth depth ≡ false) (trie_a : IsTrie docs a)
      (here : get_elem? a idx ≡ some n) (deep : n.depth ≡ depth) (on_path : Agree depth key n.route)
      (child : get_elem? n.children (chunk key depth) ≡ some sub)
      (below : Edited a b left (depth + 1) key sub r want) where
    -- The level below left the node alone.
    kept : get_elem? b idx ≡ some n
    kept = let (n', e, d, p, c) = below.evolves idx n here in go n' e c
      where
        go :
            (n' : Node)
            → get_elem? b idx ≡ some n'
            → (n' ≡ n) ⊎ OnPath (depth + 1) key n
            → get_elem? b idx ≡ some n
        go n' e (inl q) = e ∙ ap (λ m. some m) q
        go n' e (inr c) = absurd (omega (arith, c.0, deep))

    edited_here : get_elem? (after key depth idx n r b) idx ≡ some (edited key depth n r)
    unfolding after
    edited_here = get-set_same idx (edited key depth n r) n b kept

    same_else : (j : ℕ) → idx ≢ j → get_elem? (after key depth idx n r b) j ≡ get_elem? b j
    unfolding after
    same_else j h = get-set_other idx j (edited key depth n r) b h

    now_child : get_elem? (edited key depth n r).children (chunk key depth) ≡ some r
    unfolding edited
    now_child = get-set_same (chunk key depth) r sub n.children child

    same_node : (i : ℕ) (m : Node) → idx ≡ i → get_elem? b i ≡ some m → n ≡ m
    same_node i m q e = let both : some n ≡ some m = sym kept ∙ ap (get_elem? b) q ∙ e in cc both

    edited_at :
        (i : ℕ) → idx ≡ i → get_elem? (after key depth idx n r b) i ≡ some (edited key depth n r)
    edited_at i q = sym (ap (get_elem? (after key depth idx n r b)) q) ∙ edited_here

    last_step : Evolves (λ m. m.depth ≡ depth) b (after key depth idx n r b)
    unfolding edited
    last_step i m e = go (nat_cases idx i)
      where
        go :
            (idx ≡ i) ⊎ (idx ≢ i)
            → (m' : Node) × (get_elem? (after key depth idx n r b) i ≡ some m')
              × (m'.depth ≡ m.depth)
              × (m'.route ≡ m.route)
              × ((m' ≡ m) ⊎ (m.depth ≡ depth))
        go (inr q) = (m, same_else i q ∙ e, refl, refl, inl refl)
        go (inl q) =
            let p : n ≡ m = same_node i m q e in
            (
              (edited key depth n r),
              edited_at i q,
              ap (λ (x : Node). x.depth) p,
              ap (λ (x : Node). x.route) p,
              inr (ap (λ (x : Node). x.depth) (sym p) ∙ deep),
            )

    whole_step : Evolves (OnPath depth key) a (after key depth idx n r b)
    unfolding edited
    whole_step i m e = go (nat_cases idx i)
      where
        go :
            (idx ≡ i) ⊎ (idx ≢ i)
            → (m' : Node) × (get_elem? (after key depth idx n r b) i ≡ some m')
              × (m'.depth ≡ m.depth)
              × (m'.route ≡ m.route)
              × ((m' ≡ m) ⊎ OnPath depth key m)
        go (inr q) =
            let (m', e', d, p, c) = below.evolves i m e in (m', same_else i q ∙ e', d, p, wider c)
          where
            wider :
                {m' : Node} → (m' ≡ m) ⊎ OnPath (depth + 1) key m → (m' ≡ m) ⊎ OnPath depth key m
            wider (inl x) = inl x
            wider (inr x) = inr (omega (arith, x.0), x.1)
        go (inl q) =
            let both : some n ≡ some m = sym here ∙ ap (get_elem? a) q ∙ e in
            let p : n ≡ m = cc both in
            let d : m.depth ≡ depth = ap (λ (x : Node). x.depth) (sym p) ∙ deep in
            (
              (edited key depth n r),
              edited_at i q,
              ap (λ (x : Node). x.depth) p,
              ap (λ (x : Node). x.route) p,
              inr (
                omega arith,
                λ j h. on_path j (omega arith) ∙ ap (λ (x : Node). chunk x.route j) p,
              ),
            )

    still :
        (l : List ℕ) (e : ℕ) (x : Child)
        → StandsAt docs b e l x
        → StandsAt docs (after key depth idx n r b) e l x
    still l e x =
        StandsAt-evolves docs (λ m. m.depth ≡ depth) b (after key depth idx n r b) e l x last_step

    still_slot :
        (l : List ℕ) (e : ℕ) (x : Option Child)
        → SlotPlaced docs b e l x
        → SlotPlaced docs (after key depth idx n r b) e l x
    still_slot l e none p = tt
    still_slot l e (some x) p = still l e x p

    edited-IsRouted : IsRouted docs (after key depth idx n r b) (edited key depth n r)
    unfolding edited
    edited-IsRouted s x l e g q = go (nat_cases (chunk key depth) s)
      where
        go :
            (chunk key depth ≡ s) ⊎ (chunk key depth ≢ s)
            → StandsAt docs (after key depth idx n r b) (n.depth + 1) l x
        go (inr h) = still l (n.depth + 1) x (
            below.trie idx n kept s x l (sym (get-set_other (chunk key depth) s r n.children h) ∙ e)
              g q)
        go (inl h) =
            let both : some r ≡ some (some x) =
              sym now_child ∙ ap (get_elem? (edited key depth n r).children) h ∙ e in
            let p : r ≡ some x = cc both in
            let step : Agree (depth + 1) l key =
              Agree-next depth l key (λ i b'. g i (omega arith) ∙ sym (on_path i b'))
                (ap (chunk l) (sym deep) ∙ q ∙ sym h) in
            subst (λ y. SlotPlaced docs (after key depth idx n r b) (n.depth + 1) l y) p
              (subst (λ d. SlotPlaced docs (after key depth idx n r b) (d + 1) l r) (sym deep)
                (still_slot l (depth + 1) r
                  (SlotPlaced-Agree b (depth + 1) key l r step below.placed)))

    after-IsTrie : IsTrie docs (after key depth idx n r b)
    after-IsTrie i m e = go (nat_cases idx i)
      where
        go : (idx ≡ i) ⊎ (idx ≢ i) → IsRouted docs (after key depth idx n r b) m
        go (inl q) =
            let both : some (edited key depth n r) ≡ some m = sym (edited_at i q) ∙ e in
            let p : (edited key depth n r) ≡ m = cc both in
            subst (λ y. IsRouted docs (after key depth idx n r b) y) p edited-IsRouted
        go (inr q) = λ s x l c g k.
            still l (m.depth + 1) x (below.trie i m (sym (same_else i q) ∙ e) s x l c g k)

    -- The walk below the node does not meet the change of the node.
    frame_below :
        (l : List ℕ) (x : Option Child)
        → SlotPlaced docs b (depth + 1) l x
        → onward (seek docs (after key depth idx n r b) l left (depth + 1)) x
          ≡ onward (seek docs b l left (depth + 1)) x
    frame_below l none p = refl
    frame_below l (some x) p =
        seek-frame docs (λ m. m.depth ≡ depth) b (after key depth idx n r b) l below.trie routed
          last_step left (depth + 1) x p (λ m le g d. absurd (omega arith))

    same_slot :
        (l : List ℕ)
        → IsKey l
        → l ≢ key
        → Agree depth l key
        → chunk key depth ≡ chunk l depth
        → seek docs (after key depth idx n r b) l (suc left) depth (dirty idx)
          ≡ seek docs a l (suc left) depth (dirty idx)
    same_slot l k ne g h =
        let step : Agree (depth + 1) l key = Agree-next depth l key g (sym h) in
        let now : get_elem? (edited key depth n r).children (chunk l depth) ≡ some r =
          sym (ap (get_elem? (edited key depth n r).children) h) ∙ now_child in
        let was : get_elem? n.children (chunk l depth) ≡ some sub =
          sym (ap (get_elem? n.children) h) ∙ child in
        seek-child (after key depth idx n r b) l left depth idx (edited key depth n r) r shallow
          edited_here now
        ∙ frame_below l r (SlotPlaced-Agree b (depth + 1) key l r step below.placed)
        ∙ below.others l k ne step
        ∙ sym (seek-child a l left depth idx n sub shallow here was)

    other_slot :
        (l : List ℕ)
        → Agree depth l key
        → chunk key depth ≢ chunk l depth
        → seek docs (after key depth idx n r b) l (suc left) depth (dirty idx)
          ≡ seek docs a l (suc left) depth (dirty idx)
    unfolding edited
    other_slot l g h =
        seek-dirty (after key depth idx n r b) l left depth idx (edited key depth n r) edited_here
        ∙ ap
            (λ t.
              and_then t (λ x. onward (seek docs (after key depth idx n r b) l left (depth + 1)) x))
            same_child
        ∙ frame_child docs (OnPath depth key) a (after key depth idx n r b) l trie_a routed
            whole_step left depth n deep (λ i q. g i q ∙ on_path i q) (trie_a idx n here)
            (λ x p.
              seek-frame docs (OnPath depth key) a (after key depth idx n r b) l trie_a routed
                whole_step left (depth + 1) x p unseen)
        ∙ sym (seek-dirty a l left depth idx n here)
      where
        same_child : child_of (edited key depth n r) l depth ≡ child_of n l depth
        same_child =
            child_of-get (edited key depth n r) l depth (get_elem? n.children (chunk l depth))
              shallow (get-set_other (chunk key depth) (chunk l depth) r n.children h)
            ∙ sym (child_of-get n l depth (get_elem? n.children (chunk l depth)) shallow refl)

        unseen :
            Unseen docs
              (OnPath depth key)
              a
              (after key depth idx n r b)
              l
              trie_a
              routed
              whole_step
              (depth + 1)
        unseen m le p c = h (c.1 depth (omega arith) ∙ sym (p depth (omega arith)))

    -- The level below, done for the child, is done for the node.
    pub edit-Edited :
        (get_elem? b idx ≡ some n)
        × Edited a
            (after key depth idx n r b)
            (suc left)
            depth
            key
            (some (dirty idx))
            (some (dirty idx))
            want
    unfolding edited
    edit-Edited = (kept, whole)
      where
        whole :
            Edited a
              (after key depth idx n r b)
              (suc left)
              depth
              key
              (some (dirty idx))
              (some (dirty idx))
              want
        whole = record {
          trie = after-IsTrie;
          placed = ((edited key depth n r), edited_here, deep, on_path);
          evolves = whole_step;
          found =
              seek-child (after key depth idx n r b) key left depth idx (edited key depth n r) r
                shallow edited_here now_child
              ∙ frame_below key r below.placed
              ∙ below.found;
          others = λ l k ne g. elim (nat_cases (chunk key depth) (chunk l depth)) [
            | inl h ↦ same_slot l k ne g h
            | inr h ↦ other_slot l g h
          ];
        }
