-- ===== src/Hamt/Extent.antt =====
-- src/hamt.rs: compressing positions to runs loses nothing, and runs that pass the check stay inside
-- the tract.
use manifestus.Base.{
  ℕ, zero, suc, ◌+◌, ◌-◌, ◌≤◌, ◌<◌, ◌≡◌, ◌⊎◌, ◌∙◌, inl, inr, refl, ap, subst, Bool, true, false,
  not, ◌||◌, List, [], ◌∷◌, ◌++◌, length, length-append, ltb, leb, ◌==◌, ==_iff, Bool-cases,
  le_of_ltb, if◌then◌else◌, arith,
}
use mathlib.Core.List.{append_assoc, append-nil}
use manifestus.Error.{Result, ok, err, stuck, corrupt, and_then}
use manifestus.Hamt.Runs.{
  Extent, check_from, check_runs, run_positions, expand_all, div_ceil, expand_runs, push_position,
  compress_onto, compress_runs,
}

run_positions-snoc : (s c : ℕ) → run_positions s (c + 1) ≡ run_positions s c ++ (s + c) ∷ []
unfolding run_positions
run_positions-snoc s zero = let here : s ≡ s + 0 = omega arith in ap (λ (z : ℕ). z ∷ []) here
run_positions-snoc s (suc c) =
    let more : suc c + 1 ≡ suc (c + 1) = omega arith in
    let there : s + 1 + c ≡ s + suc c = omega arith in
    ap (run_positions s) more
    ∙ ap (λ (l : List ℕ). s ∷ l)
        (run_positions-snoc (s + 1) c ∙ ap (λ (z : ℕ). run_positions (s + 1) c ++ z ∷ []) there)

expand_all-push_position :
    (p : ℕ) (runs : List Extent) → expand_all (push_position p runs) ≡ expand_all runs ++ p ∷ []
unfolding expand_all push_position run_positions
expand_all-push_position p [] = refl
expand_all-push_position p ((s, c) ∷ []) = go (Bool-cases (s + c == p))
  where
    go :
        ((s + c == p) ≡ true) ⊎ ((s + c == p) ≡ false)
        → expand_all (if s + c == p then (s, c + 1) ∷ [] else (s, c) ∷ (p, 1) ∷ [])
          ≡ (run_positions s c ++ []) ++ p ∷ []
    go (inl h) = rw (h, run_positions-snoc s c, (==_iff (s + c) p).0 h) (simp append-nil)
    go (inr h) = rw h (simp append-nil)
expand_all-push_position p (x ∷ y ∷ r) = rw (expand_all-push_position p (y ∷ r)) (simp append_assoc)

expand_all-compress_onto :
    (runs : List Extent) (ps : List ℕ) → expand_all (compress_onto runs ps) ≡ expand_all runs ++ ps
unfolding compress_onto
expand_all-compress_onto runs [] = simp append-nil
expand_all-compress_onto runs (p ∷ ps) =
    expand_all-compress_onto (push_position p runs) ps
    ∙ (rw (expand_all-push_position p runs) (simp append_assoc))

-- Compressing loses nothing: the runs expand to the positions, in order.
pub expand_all-compress_runs : (ps : List ℕ) → expand_all (compress_runs ps) ≡ ps
unfolding compress_runs expand_all
expand_all-compress_runs ps = expand_all-compress_onto [] ps

abbrev pub AllBelow : ℕ → List ℕ → Type 0
AllBelow len [] = Unit {0}
AllBelow len (p ∷ ps) = (p < len) × AllBelow len ps

AllBelow-append :
    (len : ℕ) (ps qs : List ℕ) → AllBelow len ps → AllBelow len qs → AllBelow len (ps ++ qs)
AllBelow-append len [] qs a b = b
AllBelow-append len (p ∷ ps) qs a b = (a.0, AllBelow-append len ps qs a.1 b)

run_positions-AllBelow : (len s c : ℕ) → s + c ≤ len → AllBelow len (run_positions s c)
unfolding run_positions
run_positions-AllBelow len s zero h = tt
run_positions-AllBelow len s (suc c) h =
    (omega arith, run_positions-AllBelow len (s + 1) c (omega arith))

length-run_positions : (s c : ℕ) → length (run_positions s c) ≡ c
unfolding run_positions
length-run_positions s zero = refl
length-run_positions s (suc c) = omega (arith, length-run_positions (s + 1) c)

-- The runs that pass are inside the tract, and the total counts them.
check_from-ok :
    (len total : ℕ) (runs : List Extent) (t : ℕ)
    → total ≤ len
    → check_from len total runs ≡ ok t
    → AllBelow len (expand_all runs) × (t ≡ total + length (expand_all runs)) × (t ≤ len)
unfolding check_from expand_all
check_from-ok len total [] t small h = (tt, omega (arith, ok_number h), omega (arith, ok_number h))
  where
    ok_number : ok total ≡ ok t → total ≡ t
    ok_number e = cc e
check_from-ok len total ((s, c) ∷ runs) t small h =
    go (leb len s) refl (ltb (len - s) c) refl (ltb len (total + c)) refl
      (check_from-ok len (total + c) runs t) h
  where
    Goal : Type 0
    Goal =
        AllBelow len (run_positions s c ++ expand_all runs)
        × (t ≡ total + length (run_positions s c ++ expand_all runs))
        × (t ≤ len)

    Rest : Type 0
    Rest =
        total + c ≤ len
        → check_from len (total + c) runs ≡ ok t
        → AllBelow len (expand_all runs) × (t ≡ total + c + length (expand_all runs)) × (t ≤ len)

    go :
        (x : Bool)
        → leb len s ≡ x
        → (y : Bool) → ltb (len - s) c ≡ y
        → (z : Bool) → ltb len (total + c) ≡ z
        → Rest
        → (if x || y
            then err (corrupt "extent run reaches past the tract")
            else if z
            then err (corrupt "extent runs total too many blocks")
            else check_from len (total + c) runs)
          ≡ ok t
        → Goal
    go true e y f z g rest r = absurd (cc r)
    go false e true f z g rest r = absurd (cc r)
    go false e false f true g rest r = absurd (cc r)
    go false e false f false g rest r = join (rest (le_of_ltb len (total + c) g) r)
      where
        in_tract : s < len
        in_tract = ground arith

        join :
            AllBelow len (expand_all runs) × (t ≡ total + c + length (expand_all runs)) × (t ≤ len)
            → Goal
        join (below, count, bound) = (
          AllBelow-append len (run_positions s c) (expand_all runs)
              (run_positions-AllBelow len s c (omega (arith, le_of_ltb (len - s) c f, in_tract)))
              below,
          omega (
            arith,
            count,
            length-run_positions s c,
            length-append {0} (run_positions s c) (expand_all runs),
          ),
          bound,
        )

-- Runs that expand name only blocks of the tract, as many as the value has furrows, and no more
-- than the tract has blocks.
pub expand_runs-bounded :
    (furrow_capacity : ℕ) (runs : List Extent) (size tract_len : ℕ) (ps : List ℕ)
    → expand_runs furrow_capacity runs size tract_len ≡ ok ps
    → AllBelow tract_len ps × (length ps ≡ div_ceil size furrow_capacity) × (length ps ≤ tract_len)
unfolding expand_runs check_runs
expand_runs-bounded furrow_capacity runs size tract_len ps h =
    go (check_from tract_len 0 runs) refl h
  where
    count : ℕ
    count = div_ceil size furrow_capacity

    go :
        (r : Result ℕ)
        → check_from tract_len 0 runs ≡ r
        → and_then r (λ total.
          if not (total == count)
          then err (corrupt "extent run total is not the furrow count")
          else ok (expand_all runs))
          ≡ ok ps
        → AllBelow tract_len ps × (length ps ≡ count) × (length ps ≤ tract_len)
    go (err e) q k = absurd (cc k)
    go stuck q k = absurd (cc k)
    go (ok total) q k = same (total == count) refl k
      where
        same :
            (b : Bool)
            → (total == count) ≡ b
            → (if not b
                then err (corrupt "extent run total is not the furrow count")
                else ok (expand_all runs))
              ≡ ok ps
            → AllBelow tract_len ps × (length ps ≡ count) × (length ps ≤ tract_len)
        same false f l = absurd (cc l)
        same true f l =
            let whole : expand_all runs ≡ ps = cc l in
            let (below, sum, bound) = check_from-ok tract_len 0 runs total (omega arith) q in
            subst
              (λ (xs : List ℕ).
                AllBelow tract_len xs × (length xs ≡ count) × (length xs ≤ tract_len))
              whole (below, omega (arith, sum, (==_iff total count).0 f), omega (arith, sum, bound))
