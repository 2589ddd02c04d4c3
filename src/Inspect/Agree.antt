-- ===== src/Inspect/Agree.antt =====
-- src/inspect.rs, `count_runs`: the inspector's count against the engine's `check_runs`.
use manifestus.Base.{
  ℕ, ◌+◌, ◌-◌, ◌≡◌, refl, Bool, true, false, ◌||◌, Option, none, some, List, [], ◌∷◌, ltb, leb,
  if◌then◌else◌,
}
use manifestus.Error.{Result, ok, err, stuck, corrupt}
use manifestus.Hamt.Runs.{Extent, check_from, check_runs}
use manifestus.Inspect.{Counted, total_of, finding, count_from, count_runs}

abbrev pub checked_total : Result ℕ → Option ℕ
checked_total (ok t) = some t
checked_total (err e) = none
checked_total stuck = none

abbrev pub counted_total : Counted → Option ℕ
counted_total (total_of t) = some t
counted_total (finding s) = none

count_from-check_from :
    (len total : ℕ) (runs : List Extent)
    → counted_total (count_from len total runs) ≡ checked_total (check_from len total runs)
unfolding count_from check_from
count_from-check_from len total [] = refl
count_from-check_from len total ((s, c) ∷ runs) =
    go (leb len s || ltb (len - s) c) (ltb len (total + c))
      (count_from-check_from len (total + c) runs)
  where
    go :
        (x y : Bool)
        → counted_total (count_from len (total + c) runs)
          ≡ checked_total (check_from len (total + c) runs)
        → counted_total (
            if x
            then finding "extent run reaches past the tract"
            else if y
            then finding "extent runs total too many blocks"
            else count_from len (total + c) runs)
          ≡ checked_total (
              if x
              then err (corrupt "extent run reaches past the tract")
              else if y
              then err (corrupt "extent runs total too many blocks")
              else check_from len (total + c) runs)
    go true y h = refl
    go false true h = refl
    go false false h = h

-- The inspector counts what the engine counts, and has a finding where the engine has an error.
pub count_runs-check_runs :
    (runs : List Extent) (tract_len : ℕ)
    → counted_total (count_runs runs tract_len) ≡ checked_total (check_runs runs tract_len)
unfolding count_runs check_runs
count_runs-check_runs runs tract_len = count_from-check_from tract_len 0 runs
