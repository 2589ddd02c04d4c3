-- ===== src/Ring/Bisect.antt =====
-- src/ring.rs, `search`: the bisection returns the newest entry of a rotated ring with any of its
-- slots corrupt, and its fuel is enough.
use manifestus.Base.{
  ℕ, zero, suc, ◌+◌, ◌-◌, ◌/◌, ◌≤◌, ◌<◌, ◌≡◌, ◌⊎◌, ◌∙◌, inl, inr, refl, sym, ap, subst, Bool, true,
  false, Option, none, some, ltb, if◌then◌else◌, lt_of_ltb, le_of_ltb, le_or_lt, arith,
}
use manifestus.Error.{Run, ok, continue, ◌>>=◌, pure}
use manifestus.Ring.Entry.{SpineEntry, Classified, valid, empty, corrupted}
use manifestus.Ring.Search.{
  Found, entry_rank, max_by_gen, found_at, anchor_case, anchor, resume, search_with, bisect_case,
  bisect, search,
}
use manifestus.Ring.Newest.{
  rank, IsReadable, Rotated, found_rank, IsAt, IsNewest, prune_left, prune_right, IsNewest-widen,
  max_by_gen-IsNewest,
}

-- The reading of a slot whose entry the loop holds.
abbrev class_of : Option SpineEntry → Classified
class_of none = empty
class_of (some e) = valid e

class_of-IsReadable : (e : Option SpineEntry) → IsReadable (class_of e)
class_of-IsReadable none = tt
class_of-IsReadable (some e) = tt

class_of-rank : (e : Option SpineEntry) → rank (class_of e) ≡ entry_rank e
class_of-rank none = refl
class_of-rank (some e) = refl

module _ {S : Type 0} (Inv : S → Type 0) where
  -- From a state with the invariant the run returns a value with the property, and keeps the
  -- invariant.
  abbrev pub Reaches : {A : Type 0} → Run S A → (A → Type 0) → Type 0
  Reaches {A} m P = (s : S) → Inv s → (a : A) × (t : S) × (m s ≡ (ok a, t)) × (Inv t × P a)

  pub pure-Reaches : {A : Type 0} {P : A → Type 0} (a : A) → P a → Reaches (pure a) P
  pure-Reaches a p s i = (a, s, refl, (i, p))

  pub >>=-Reaches :
      {A B : Type 0} {P : A → Type 0} {Q : B → Type 0} (m : Run S A) (g : A → Run S B)
      → Reaches m P
      → ((a : A) → P a → Reaches (g a) Q)
      → Reaches (m >>= g) Q
  unfolding ◌>>=◌
  >>=-Reaches m g h k s i =
      let (a, t, e, (j, p)) = h s i in
      let (b, u, e', (j', q)) = k a p t j in (b, u, ap (continue g) e ∙ e', (j', q))

-- The anchor: the first slot of the range that is not corrupt, or none.
abbrev Anchored : (ℕ → Classified) → ℕ → ℕ → Option (ℕ × Option SpineEntry) → Type 0
Anchored f lo hi none = (j : ℕ) → lo ≤ j → j ≤ hi → rank (f j) ≡ 0
Anchored f lo hi (some (at, e)) =
    (lo ≤ at) × (at ≤ hi) × (f at ≡ class_of e) × ((j : ℕ) → lo ≤ j → j < at → rank (f j) ≡ 0)

Anchored-step :
    (f : ℕ → Classified) (lo hi : ℕ) (a : Option (ℕ × Option SpineEntry))
    → f lo ≡ corrupted
    → Anchored f (lo + 1) hi a
    → Anchored f lo hi a
Anchored-step f lo hi a c = go a
  where
    skipped :
        (j : ℕ)
        → (lo + 1 ≤ j) ⊎ (j < lo + 1)
        → lo ≤ j
        → (lo + 1 ≤ j → rank (f j) ≡ 0)
        → rank (f j) ≡ 0
    skipped j (inl x) h k = k x
    skipped j (inr x) h k =
        let same : j ≡ lo = omega arith in ap (λ (i : ℕ). rank (f i)) same ∙ ap rank c

    go : (a : Option (ℕ × Option SpineEntry)) → Anchored f (lo + 1) hi a → Anchored f lo hi a
    go none h = λ j k l. skipped j (le_or_lt (lo + 1) j) k (λ x. h j x l)
    go (some (at, e)) (x, y, z, h) =
        (omega arith, y, z, λ j k l. skipped j (le_or_lt (lo + 1) j) k (λ x. h j x l))

-- A slot reader whose readings are `f`, as long as the invariant holds.
module _ {S : Type 0} (Inv : S → Type 0) (gen_at : ℕ → Run S Classified) (f : ℕ → Classified)
    (p top : ℕ) where
  abbrev pub IsSteady : Type 0
  IsSteady = (slot : ℕ) → slot ≤ top → Reaches Inv (gen_at slot) (λ x. x ≡ f slot)

  module _ (steady : IsSteady) where
    anchor-Reaches :
        (fuel lo hi : ℕ)
        → hi ≤ top
        → lo ≤ hi + 1
        → hi + 1 < fuel + lo
        → Reaches Inv (anchor gen_at fuel lo hi) (Anchored f lo hi)
    unfolding anchor
    anchor-Reaches zero lo hi inside a b = λ s i. absurd (omega arith)
    anchor-Reaches (suc fuel) lo hi inside a b =
        past (anchor-Reaches fuel (lo + 1) hi inside) (ltb hi lo) refl
      where
        Rest : Type 0
        Rest =
            lo + 1 ≤ hi + 1
            → hi + 1 < fuel + (lo + 1)
            → Reaches Inv (anchor gen_at fuel (lo + 1) hi) (Anchored f (lo + 1) hi)

        act :
            Rest
            → lo ≤ hi
            → (x : Classified) → x ≡ f lo
            → Reaches Inv
                (anchor_case gen_at x lo (anchor gen_at fuel (lo + 1) hi))
                (Anchored f lo hi)
        act rest c corrupted e = λ s i.
            let (a', t, run, (j, h)) = rest (omega arith) (omega arith) s i in
            (a', t, run, (j, Anchored-step f lo hi a' (sym e) h))
        act rest c empty e =
            pure-Reaches Inv (some (lo, none))
              (omega arith, c, sym e, λ j h k. absurd (omega arith))
        act rest c (valid x) e =
            pure-Reaches Inv (some (lo, some x))
              (omega arith, c, sym e, λ j h k. absurd (omega arith))

        past :
            Rest
            → (b : Bool) → ltb hi lo ≡ b
            → Reaches Inv
                (if b
                  then pure none
                  else (gen_at lo
                      >>= (λ cls. anchor_case gen_at cls lo (anchor gen_at fuel (lo + 1) hi))))
                (Anchored f lo hi)
        past rest true e =
            pure-Reaches Inv none (λ j h k. absurd (omega (arith, lt_of_ltb hi lo e)))
        past rest false e =
            let c : lo ≤ hi = le_of_ltb hi lo e in
            >>=-Reaches Inv (gen_at lo) _ (steady lo (omega arith)) (act rest c)

    -- The bisection loop's promise at one fuel.
    abbrev Finds : (ℕ → Option SpineEntry → ℕ → Run S Found) → ℕ → Type 0
    Finds go fuel =
        (lo : ℕ) (e : Option SpineEntry) (hi : ℕ)
        → lo ≤ hi
        → hi ≤ top
        → hi < fuel + lo
        → f lo ≡ class_of e
        → Reaches Inv (go lo e hi) (IsNewest f lo hi)

    search_with-Reaches :
        (go : ℕ → Option SpineEntry → ℕ → Run S Found) (fuel lo hi : ℕ)
        → Finds go fuel
        → lo ≤ hi
        → hi ≤ top
        → hi < fuel + lo
        → Reaches Inv (search_with gen_at go lo hi) (IsNewest f lo hi)
    unfolding search_with
    search_with-Reaches go fuel lo hi finds a inside enough =
        >>=-Reaches Inv (anchor gen_at (hi + 2 - lo) lo hi) (resume gen_at go hi)
          (anchor-Reaches (hi + 2 - lo) lo hi inside (omega arith) (omega arith)) next
      where
        next :
            (x : Option (ℕ × Option SpineEntry))
            → Anchored f lo hi x
            → Reaches Inv (resume gen_at go hi x) (IsNewest f lo hi)
        next none h =
            pure-Reaches Inv none (record { is_at = tt; newest = λ j k l. omega (arith, h j k l) })
        next (some (at, e)) (x, y, z, h) = λ s i.
            let (r, t, run, (j, w)) = finds at e hi y inside (omega arith) z s i in
            (
              r,
              t,
              run,
              (
                j,
                IsNewest-widen f at hi lo hi r x (omega arith) w (λ j k l. omega (arith, h j k l))
                    (λ j k l. absurd (omega arith)),
              ),
            )

    module _ (rot : Rotated f p top) where
      -- The comparison of the readings at `lo` and `mid`, for a reading `x` of `mid`.
      drop_right :
          (lo mid hi : ℕ) (e : Option SpineEntry) (r : Found)
          → lo < mid
          → mid ≤ hi
          → hi ≤ top
          → f lo ≡ class_of e
          → IsReadable (f mid)
          → rank (f mid) ≤ entry_rank e
          → IsNewest f lo (mid - 1) r
          → IsNewest f lo hi r
      drop_right lo mid hi e r apart a inside at rm older w =
          let same : rank (f lo) ≡ entry_rank e = ap rank at ∙ class_of-rank e in
          let rl : IsReadable (f lo) = subst IsReadable (sym at) (class_of-IsReadable e) in
          IsNewest-widen f lo (mid - 1) lo hi r (omega arith) (omega arith) w
            (λ j h k. absurd (omega arith))
            (λ j h k. omega (
              arith,
              prune_right f p top rot lo mid j apart (omega arith) rl rm (omega arith)
                  (omega arith),
              w.newest lo (omega arith) (omega arith),
            ))

      drop_left :
          (lo mid hi : ℕ) (e : Option SpineEntry) (r : Found)
          → lo < mid
          → mid ≤ hi
          → hi ≤ top
          → f lo ≡ class_of e
          → IsReadable (f mid)
          → entry_rank e < rank (f mid)
          → IsNewest f mid hi r
          → IsNewest f lo hi r
      drop_left lo mid hi e r apart a inside at rm newer w =
          let same : rank (f lo) ≡ entry_rank e = ap rank at ∙ class_of-rank e in
          let rl : IsReadable (f lo) = subst IsReadable (sym at) (class_of-IsReadable e) in
          IsNewest-widen f mid hi lo hi r (omega arith) (omega arith) w
            (λ j h k. omega (
              arith,
              prune_left f p top rot lo mid j (omega arith) rl rm (omega arith) h k,
              w.newest mid (omega arith) (omega arith),
            ))
            (λ j h k. absurd (omega arith))

      mapped :
          {A : Type 0} {P Q : A → Type 0} (m : Run S A)
          → ((a : A) → P a → Q a)
          → Reaches Inv m P
          → Reaches Inv m Q
      mapped m g h s i = let (a, t, e, (j, p)) = h s i in (a, t, e, (j, g a p))

      bisect_case-Reaches :
          (go : ℕ → Option SpineEntry → ℕ → Run S Found) (fuel lo mid hi : ℕ)
          (e : Option SpineEntry)
          → Finds go fuel
          → lo < mid
          → mid ≤ hi
          → hi ≤ top
          → hi < suc fuel + lo
          → f lo ≡ class_of e
          → (x : Classified) → x ≡ f mid
          → Reaches Inv (bisect_case gen_at go lo e hi mid x) (IsNewest f lo hi)
      unfolding bisect_case
      bisect_case-Reaches go fuel lo mid hi e finds apart a inside enough at corrupted q =
          >>=-Reaches Inv _ _
            (search_with-Reaches go fuel lo (mid - 1) finds (omega arith) (omega arith)
              (omega arith))
            (λ l left.
              >>=-Reaches Inv _ _ (search_with-Reaches go fuel mid hi finds a inside (omega arith))
                (λ r right.
                  pure-Reaches Inv (max_by_gen l r)
                    (max_by_gen-IsNewest f lo mid hi l r apart a left right)))
      bisect_case-Reaches go fuel lo mid hi e finds apart a inside enough at empty q =
          mapped (go lo e (mid - 1))
            (λ r.
              drop_right lo mid hi e r apart a inside at (subst IsReadable q tt)
                (subst (λ (x : Classified). rank x ≤ entry_rank e) q (omega arith)))
            (finds lo e (mid - 1) (omega arith) (omega arith) (omega arith) at)
      bisect_case-Reaches go fuel lo mid hi e finds apart a inside enough at (valid x) q =
          choose (ltb (entry_rank e) (suc x.gen)) refl
        where
          choose :
              (b : Bool)
              → ltb (entry_rank e) (suc x.gen) ≡ b
              → Reaches Inv (if b then go mid (some x) hi else go lo e (mid - 1)) (IsNewest f lo hi)
          choose true n =
              mapped (go mid (some x) hi)
                (λ r.
                  drop_left lo mid hi e r apart a inside at (subst IsReadable q tt)
                    (subst (λ (y : Classified). entry_rank e < rank y) q (lt_of_ltb _ _ n)))
                (finds mid (some x) hi a inside (omega arith) (sym q))
          choose false n =
              mapped (go lo e (mid - 1))
                (λ r.
                  drop_right lo mid hi e r apart a inside at (subst IsReadable q tt)
                    (subst (λ (y : Classified). rank y ≤ entry_rank e) q (le_of_ltb _ _ n)))
                (finds lo e (mid - 1) (omega arith) (omega arith) (omega arith) at)

      bisect-Finds : (fuel : ℕ) → Finds (bisect gen_at fuel) fuel
      unfolding bisect
      bisect-Finds zero lo e hi a inside enough at = λ s i. absurd (omega arith)
      bisect-Finds (suc fuel) lo e hi a inside enough at =
          choose (bisect-Finds fuel) (ltb lo hi) refl
        where
          mid : ℕ
          mid = (lo + hi + 1) / 2

          choose :
              Finds (bisect gen_at fuel) fuel
              → (b : Bool) → ltb lo hi ≡ b
              → Reaches Inv
                  (if b
                    then (gen_at mid
                        >>= (λ cls. bisect_case gen_at (bisect gen_at fuel) lo e hi mid cls))
                    else pure (found_at lo e))
                  (IsNewest f lo hi)
          choose finds true n =
              let apart : lo < hi = lt_of_ltb lo hi n in
              >>=-Reaches Inv (gen_at mid) _ (steady mid (omega arith)) (
                bisect_case-Reaches (bisect gen_at fuel) fuel lo mid hi e finds (omega arith)
                  (omega arith) inside (omega arith) at)
          choose finds false n =
              let same : hi ≡ lo = omega (arith, le_of_ltb lo hi n) in
              pure-Reaches Inv (found_at lo e) (record {
                is_at = only e at;
                newest = λ j h k.
                    let here : j ≡ lo = omega (arith, le_of_ltb lo hi n) in
                    omega (
                      arith,
                      ap (λ (i : ℕ). rank (f i)) here,
                      ap rank at,
                      class_of-rank e,
                      found_at-rank e,
                    );
              })
            where
              found_at-rank : (e : Option SpineEntry) → found_rank (found_at lo e) ≡ entry_rank e
              found_at-rank none = refl
              found_at-rank (some x) = refl

              only : (e : Option SpineEntry) → f lo ≡ class_of e → IsAt f lo hi (found_at lo e)
              only none h = tt
              only (some x) h = (omega arith, a, h)

      -- On a rotated ring with any of its slots corrupt the search returns, and it returns the newest
      -- entry there is.
      pub search-Reaches :
          (lo hi : ℕ) → lo ≤ hi → hi ≤ top → Reaches Inv (search gen_at lo hi) (IsNewest f lo hi)
      unfolding search
      search-Reaches lo hi a inside =
          search_with-Reaches (bisect gen_at (suc (hi - lo))) (suc (hi - lo)) lo hi
            (bisect-Finds (suc (hi - lo))) a inside (omega arith)
