-- ===== src/Tract/Placed.antt =====
-- src/tract.rs, `append_with`: its promise. The clean invariant and the fence hold after it, nothing
-- referenced is written over, and its blocks read back.
use manifestus.Base.{
  ℕ, zero, suc, ◌+◌, ◌≤◌, ◌<◌, ◌≡◌, ◌≢◌, ◌⊎◌, ◌∙◌, inl, inr, refl, sym, ap, subst, Bool, true,
  false, Option, none, some, List, [], ◌∷◌, ◌++◌, get_elem?, leb, ltb, le_of_ltb, le_or_lt,
  Bool-cases, if◌then◌else◌, arith,
}
use manifestus.Error.{Result, ok, err, is_ok, tract_full, fenced}
use manifestus.Block.{Block, BlockDev}
use manifestus.Mirror.State.{Mirror, Batch, staged, reserve_staged, emit}
use manifestus.Mirror.Reads
use manifestus.Tract.{
  Liveness, Tract, clean_blocks, place, lapped, over_fence, places, stage_from, guarded,
  append_with, read,
}
use native.Mathlib.Nat.{mod-lt}
use manifestus.Tract.Append.{staged_at, stage_from-other, stage_from-at}

-- reap ≤ plow ≤ reap + len.
pub record IsWellFormed (t : Tract) : Type 0 where
  pub reaped : t.reap ≤ t.plow
  pub bounded : t.plow ≤ t.reap + t.len

abbrev pub WithinFence : Option ℕ → ℕ → Type 0
WithinFence none end = Unit {0}
WithinFence (some limit) end = end ≤ limit

over_fence-WithinFence : (o : Option ℕ) (end : ℕ) → over_fence o end ≡ false → WithinFence o end
over_fence-WithinFence none end h = tt
over_fence-WithinFence (some limit) end h = le_of_ltb limit end h

-- The lap guard passes only over positions that nothing references.
lapped-none :
    (live : Liveness) (t : Tract) (left i k : ℕ)
    → lapped live t left i ≡ none
    → i ≤ k
    → k < i + left
    → live.is_referenced (place t k) ≡ false
unfolding lapped
lapped-none live t zero i k h a b = absurd (omega arith)
lapped-none live t (suc left) i k h a b =
    go (Bool-cases (live.is_referenced (place t i))) (le_or_lt k i)
      (lapped-none live t left (i + 1) k)
  where
    Guard : Bool → Type 0
    Guard b = (if b then some (place t i) else lapped live t left (i + 1)) ≡ none

    some_none : {x : ℕ} → some x ≡ none → ⊥
    some_none e = cc e

    go :
        (live.is_referenced (place t i) ≡ true) ⊎ (live.is_referenced (place t i) ≡ false)
        → (k ≤ i) ⊎ (i < k)
        → (lapped live t left (i + 1) ≡ none
            → i + 1 ≤ k
            → k < i + 1 + left
            → live.is_referenced (place t k) ≡ false)
        → live.is_referenced (place t k) ≡ false
    go (inl r) x later = absurd (some_none (subst Guard r h))
    go (inr r) (inl x) later =
        let same : k ≡ i = omega arith in ap (λ (z : ℕ). live.is_referenced (place t z)) same ∙ r
    go (inr r) (inr x) later = later (subst Guard r h) (omega arith) (omega arith)

from_zero : (k : ℕ) → 0 + k ≡ k
from_zero k = omega arith

within : (p len : ℕ) → p < len → leb len p ≡ false
within p len h = ground arith

places-at :
    (t : Tract) (left i k : ℕ) → k < left → get_elem? (places t left i) k ≡ some (place t (i + k))
unfolding places
places-at t zero i k h = absurd (omega arith)
places-at t (suc left) i zero h =
    let same : i ≡ i + 0 = omega arith in ap (λ (z : ℕ). some (place t z)) same
places-at t (suc left) i (suc k) h =
    let same : i + 1 + k ≡ i + suc k = omega arith in
    places-at t left (i + 1) k (omega arith) ∙ ap (λ (z : ℕ). some (place t z)) same

module _ {A B : Type 0} where
  staged_at-reserve_staged :
      (x n : ℕ) (m : Mirror A B) → staged_at x (reserve_staged n m) ≡ staged_at x m
  unfolding reserve_staged staged
  staged_at-reserve_staged x n m = go (ltb 0 n)
    where
      roomed : (q : List Batch) → staged (q ++ record { room = n; items = [] } ∷ []) ≡ staged q
      roomed [] = refl
      roomed (y ∷ q) = rw (roomed q) refl

      go :
          (b : Bool)
          → staged_at x (
              if b
              then record m { pending = m.pending ++ record { room = n; items = [] } ∷ [] }
              else m)
            ≡ staged_at x m
      go true = rw (roomed m.pending) refl
      go false = refl

  -- The guards of an append that succeeded, and its effect.
  record Appended (live : Liveness) (n : ℕ) (make : ℕ → Block) (t t' : Tract) (m m' : Mirror A B)
      (ps : List ℕ) : Type 0 where
    fits : n ≤ clean_blocks t
    fenced_in : WithinFence t.fence_limit (t.plow + n)
    unlapped : lapped live t n 0 ≡ none
    positions : places t n 0 ≡ ps
    advanced : record t { plow = t.plow + n } ≡ t'
    staged_all : stage_from t make n 0 (reserve_staged n m) ≡ m'

  append_with-Appended :
      (live : Liveness) (n : ℕ) (make : ℕ → Block) (t t' : Tract) (m m' : Mirror A B) (ps : List ℕ)
      → append_with live n make (t, m) ≡ (ok ps, (t', m'))
      → Appended live n make t t' m m' ps
  unfolding append_with
  append_with-Appended live n make t t' m m' ps =
      go (ltb (clean_blocks t) n) refl (over_fence t.fence_limit (t.plow + n)) refl
        (lapped live t n 0) refl
    where
      done : Result (List ℕ) × (Tract × Mirror A B)
      done = (
        ok (places t n 0),
        (record t { plow = t.plow + n }, stage_from t make n 0 (reserve_staged n m)),
      )

      go :
          (b : Bool)
          → ltb (clean_blocks t) n ≡ b
          → (c : Bool) → over_fence t.fence_limit (t.plow + n) ≡ c
          → (o : Option ℕ) → lapped live t n 0 ≡ o
          → (if b
              then (err tract_full, (t, m))
              else if c
              then (err (fenced t.plow), (t, m))
              else guarded o done (t, m))
            ≡ (ok ps, (t', m'))
          → Appended live n make t t' m m' ps
      go true e c f o g h = absurd (cc h)
      go false e true f o g h = absurd (cc h)
      go false e false f (some x) g h = absurd (cc h)
      go false e false f none g h = record {
        fits = le_of_ltb (clean_blocks t) n e;
        fenced_in = over_fence-WithinFence t.fence_limit (t.plow + n) f;
        unlapped = g;
        positions = cc h;
        advanced = ap (λ x. x.1.0) h;
        staged_all = ap (λ x. x.1.1) h;
      }

  -- From cursors in order, an append that succeeds keeps them in order and within the fence, moves
  -- nothing but the plow, and writes over nothing that the index references.
  pub append-keeps :
      (live : Liveness) (n : ℕ) (make : ℕ → Block) (t t' : Tract) (m m' : Mirror A B) (ps : List ℕ)
      → IsWellFormed t
      → append_with live n make (t, m) ≡ (ok ps, (t', m'))
      → IsWellFormed t'
        × (t' ≡ record t { plow = t.plow + n })
        × WithinFence t'.fence_limit t'.plow
        × ((k : ℕ) → k < n → live.is_referenced (place t k) ≡ false)
  unfolding clean_blocks
  append-keeps live n make t t' m m' ps w h =
      let a : Appended live n make t t' m m' ps = append_with-Appended live n make t t' m m' ps h in
      subst
        (λ (x : Tract).
          IsWellFormed x
          × (x ≡ record t { plow = t.plow + n })
          × WithinFence x.fence_limit x.plow
          × ((k : ℕ) → k < n → live.is_referenced (place t k) ≡ false))
        a.advanced
        (
          record {
            reaped = omega (arith, w.reaped);
            bounded = omega (arith, w.reaped, w.bounded, a.fits);
          },
          refl,
          a.fenced_in,
          λ k l. lapped-none live t n 0 k a.unlapped (omega arith) (omega arith),
        )

  -- The blocks of an append that succeeded are staged at the positions it returns, in order, and
  -- the staging of every other position is what it was.
  pub append-stages :
      (live : Liveness) (n : ℕ) (make : ℕ → Block) (t t' : Tract) (m m' : Mirror A B) (ps : List ℕ)
      → append_with live n make (t, m) ≡ (ok ps, (t', m'))
      → ((k : ℕ)
          → k < n
          → (get_elem? ps k ≡ some (place t k))
            × (staged_at (t.base + place t k) m' ≡ some (make k)))
        × ((x : ℕ) → ((k : ℕ) → k < n → t.base + place t k ≢ x) → staged_at x m' ≡ staged_at x m)
  unfolding clean_blocks
  append-stages live n make t t' m m' ps h =
      let a : Appended live n make t t' m m' ps = append_with-Appended live n make t t' m m' ps h in
      let room : n ≤ t.len = omega (arith, a.fits) in
      let m0 : Mirror A B = reserve_staged n m in
      (
        λ k l. (
          ap (λ (qs : List ℕ). get_elem? qs k) (sym a.positions)
              ∙ places-at t n 0 k l
              ∙ ap (λ (z : ℕ). some (place t z)) (from_zero k),
          ap (staged_at (t.base + place t k)) (sym a.staged_all)
              ∙ stage_from-at t make n 0 k m0 room (omega arith) (omega arith),
        ),
        λ x apart.
            ap (staged_at x) (sym a.staged_all)
            ∙ stage_from-other t make n 0 x m0 (λ k b c. apart k (omega arith))
            ∙ staged_at-reserve_staged x n m,
      )

  -- A refused append has no side effect but an event of the lap guard's.
  pub append-refused :
      (live : Liveness) (n : ℕ) (make : ℕ → Block) (t : Tract) (m : Mirror A B)
      → is_ok (append_with live n make (t, m)).0 ≡ false
      → ((append_with live n make (t, m)).1.0 ≡ t)
        × (record (append_with live n make (t, m)).1.1 { events = m.events } ≡ m)
  unfolding append_with emit
  append-refused live n make t m =
      go (ltb (clean_blocks t) n) (over_fence t.fence_limit (t.plow + n)) (lapped live t n 0)
    where
      run : Bool → Bool → Option ℕ → Result (List ℕ) × (Tract × Mirror A B)
      run b c o =
          if b
          then (err tract_full, (t, m))
          else if c
          then (err (fenced t.plow), (t, m))
          else guarded o
              (
                ok (places t n 0),
                (record t { plow = t.plow + n }, stage_from t make n 0 (reserve_staged n m)),
              )
              (t, m)

      go :
          (b c : Bool) (o : Option ℕ)
          → is_ok (run b c o).0 ≡ false
          → ((run b c o).1.0 ≡ t) × (record (run b c o).1.1 { events = m.events } ≡ m)
      go true c o h = (refl, refl)
      go false true o h = (refl, refl)
      go false false (some x) h = (refl, refl)
      go false false none h = absurd (cc h)

module _ {A B : Type 0} (devA : BlockDev A) (devB : BlockDev B) where
  -- In a tract that is not empty, each block of an append that succeeded reads back at its
  -- position, from the staging.
  pub append-read :
      (live : Liveness) (n : ℕ) (make : ℕ → Block) (t t' : Tract) (m m' : Mirror A B) (ps : List ℕ)
      (k : ℕ)
      → 0 < t.len
      → k < n
      → append_with live n make (t, m) ≡ (ok ps, (t', m'))
      → read devA devB t' (place t k) m' ≡ (ok (make k), m')
  unfolding read Reads.read
  append-read live n make t t' m m' ps k pos l h =
      let a : Appended live n make t t' m m' ps = append_with-Appended live n make t t' m m' ps h in
      let here : staged_at (t.base + place t k) m' ≡ some (make k) =
        ((append-stages live n make t t' m m' ps h).0 k l).1 in
      let inside : leb t.len (place t k) ≡ false =
        within (place t k) t.len (mod-lt (t.plow + k) pos) in
      let found : read devA devB (record t { plow = t.plow + n }) (place t k) m'
          ≡ (ok (make k), m') =
        rw (inside, here, Reads.read) refl in
      subst (λ (x : Tract). read devA devB x (place t k) m' ≡ (ok (make k), m')) a.advanced found
