-- ===== src/Hamt/Runs.antt =====
-- src/hamt.rs, `check_runs`, `expand_runs` and `compress_runs`: the runs of an extent leaf. The
-- capacity of a furrow, a number that the layout of a block gives, is a parameter.
use manifestus.Base.{
  ℕ, zero, suc, ◌+◌, ◌-◌, ◌/◌, ◌%◌, not, ◌||◌, List, [], ◌∷◌, ◌++◌, ltb, leb, ◌==◌, if◌then◌else◌,
}
use manifestus.Error.{Result, ok, err, and_then, corrupt}

abbrev pub Extent : Type 0
Extent = ℕ × ℕ

-- The loop, with the total so far.
unfoldable pub check_from : ℕ → ℕ → List Extent → Result ℕ
check_from tract_len total [] = ok total
check_from tract_len total ((s, c) ∷ runs) =
    let rest = check_from tract_len (total + c) runs in
    if leb tract_len s || ltb (tract_len - s) c
    then err (corrupt "extent run reaches past the tract")
    else if ltb tract_len (total + c)
    then err (corrupt "extent runs total too many blocks")
    else rest

unfoldable pub check_runs : List Extent → ℕ → Result ℕ
unfolding check_from
check_runs runs tract_len = check_from tract_len 0 runs

-- `s + j` for every `j` below the count.
unfoldable pub run_positions : ℕ → ℕ → List ℕ
run_positions s zero = []
run_positions s (suc c) = s ∷ run_positions (s + 1) c

unfoldable pub expand_all : List Extent → List ℕ
unfolding run_positions
expand_all [] = []
expand_all ((s, c) ∷ runs) = run_positions s c ++ expand_all runs

-- `div_ceil`
abbrev pub div_ceil : ℕ → ℕ → ℕ
div_ceil n d = if n % d == 0 then n / d else n / d + 1

unfoldable pub expand_runs : ℕ → List Extent → ℕ → ℕ → Result (List ℕ)
unfolding check_runs expand_all
expand_runs furrow_capacity runs size tract_len = and_then (check_runs runs tract_len) (λ total.
    if not (total == div_ceil size furrow_capacity)
    then err (corrupt "extent run total is not the furrow count")
    else ok (expand_all runs))

-- A position extends the last run, or starts one.
unfoldable pub push_position : ℕ → List Extent → List Extent
push_position p [] = (p, 1) ∷ []
push_position p ((s, c) ∷ []) = if s + c == p then (s, c + 1) ∷ [] else (s, c) ∷ (p, 1) ∷ []
push_position p (x ∷ y ∷ r) = x ∷ push_position p (y ∷ r)

unfoldable pub compress_onto : List Extent → List ℕ → List Extent
unfolding push_position
compress_onto runs [] = runs
compress_onto runs (p ∷ ps) = compress_onto (push_position p runs) ps

unfoldable pub compress_runs : List ℕ → List Extent
unfolding compress_onto
compress_runs positions = compress_onto [] positions
