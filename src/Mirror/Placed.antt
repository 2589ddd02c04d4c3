-- ===== src/Mirror/Placed.antt =====
-- src/mirror.rs, `runs_of`: batches of placed blocks, their order and their runs.
use manifestus.Base.{
  ℕ, suc, ◌+◌, ◌<◌, ◌≤◌, ◌≡◌, ◌≢◌, refl, ap, ◌∙◌, List, [], ◌∷◌, ◌++◌, map, length, ◌==◌, ==_iff,
  Bool-cases, inl, inr, arith,
}
use manifestus.Block.{Block}
use manifestus.Media.{Outside}
use manifestus.Mirror.Device.{Placed, block_of, attach_run, runs_of, run_start}

-- Every block of the batch is where it goes.
abbrev pub Stored : (ℕ → Block) → List Placed → Type 0
Stored view [] = Unit {0}
Stored view (p ∷ ps) = (view p.0 ≡ p.1) × Stored view ps

-- No block of the batch goes to `j`.
abbrev pub Avoids : ℕ → List Placed → Type 0
Avoids j [] = Unit {0}
Avoids j (p ∷ ps) = (j ≢ p.0) × Avoids j ps

-- Positions strictly increase, from `lo` on.
abbrev pub Above : ℕ → List Placed → Type 0
Above lo [] = Unit {0}
Above lo (p ∷ ps) = (lo ≤ p.0) × Above (suc p.0) ps

-- Positions are `s`, `s + 1`, ...
abbrev pub Chained : ℕ → List Placed → Type 0
Chained s [] = Unit {0}
Chained s (p ∷ ps) = (p.0 ≡ s) × Chained (s + 1) ps

abbrev pub AreRuns : List (List Placed) → Type 0
AreRuns [] = Unit {0}
AreRuns (r ∷ rs) = Chained (run_start r) r × AreRuns rs

abbrev pub joined : List (List Placed) → List Placed
joined [] = []
joined (r ∷ rs) = r ++ joined rs

-- Nothing is lost or reordered by cutting a batch into runs.
attach_run-joined :
    (p : Placed) (rs : List (List Placed)) → joined (attach_run p rs) ≡ p ∷ joined rs
attach_run-joined p [] = refl
attach_run-joined p ([] ∷ rs) = refl
attach_run-joined p ((q ∷ r) ∷ rs) = ground arith

pub joined-runs_of : (ps : List Placed) → joined (runs_of ps) ≡ ps
unfolding runs_of
joined-runs_of [] = refl
joined-runs_of (p ∷ ps) = attach_run-joined p (runs_of ps) ∙ ap (λ qs. p ∷ qs) (joined-runs_of ps)

attach_run-AreRuns : (p : Placed) (rs : List (List Placed)) → AreRuns rs → AreRuns (attach_run p rs)
attach_run-AreRuns p [] h = ((refl, tt), tt)
attach_run-AreRuns p ([] ∷ rs) h = ((refl, tt), h.1)
attach_run-AreRuns p ((q ∷ r) ∷ rs) h = elim (Bool-cases (q.0 == p.0 + 1)) [
  | inl next ↦
      let e : q.0 ≡ p.0 + 1 = (==_iff q.0 (p.0 + 1)).0 next in
      rw next ((refl, (e, rw e at h.0.1)), h.1)
  | inr apart ↦ rw apart ((refl, tt), h)
]

pub runs_of-AreRuns : (ps : List Placed) → AreRuns (runs_of ps)
unfolding runs_of
runs_of-AreRuns [] = tt
runs_of-AreRuns (p ∷ ps) = attach_run-AreRuns p (runs_of ps) (runs_of-AreRuns ps)

pub Chained-Outside :
    (s : ℕ) (ps : List Placed) (j : ℕ)
    → Chained s ps
    → Avoids j ps
    → Outside s (length (map block_of ps)) j
Chained-Outside s [] j c a = grind arith
Chained-Outside s (p ∷ ps) j c a = ground (arith, Chained-Outside (s + 1) ps j c.1 a.1)

pub Avoids-append : (j : ℕ) (ps qs : List Placed) → Avoids j (ps ++ qs) → Avoids j ps × Avoids j qs
Avoids-append j [] qs a = (tt, a)
Avoids-append j (p ∷ ps) qs a = let (x, y) = Avoids-append j ps qs a.1 in ((a.0, x), y)

pub Above-Avoids : (lo j : ℕ) (ps : List Placed) → Above lo ps → j < lo → Avoids j ps
Above-Avoids lo j [] a h = tt
Above-Avoids lo j (p ∷ ps) a h = (omega arith, Above-Avoids (suc p.0) j ps a.1 (omega arith))

pub Above-weaken : (lo k : ℕ) (ps : List Placed) → k ≤ lo → Above lo ps → Above k ps
Above-weaken lo k [] h a = tt
Above-weaken lo k (p ∷ ps) h a = (omega arith, a.1)

-- What follows a run in an increasing batch lies beyond it.
chain-Above :
    (s : ℕ) (ps qs : List Placed) → Chained s ps → Above s (ps ++ qs) → Above (s + length ps) qs
chain-Above s [] qs c a = Above-weaken s (s + 0) qs (omega arith) a
chain-Above s (p ∷ ps) qs c a =
    Above-weaken (s + 1 + length ps) (s + suc (length ps)) qs (omega arith)
      (chain-Above (s + 1) ps qs c.1 (Above-weaken (suc p.0) (s + 1) (ps ++ qs) (omega arith) a.1))

pub run-Above :
    (lo : ℕ) (r qs : List Placed)
    → Chained (run_start r) r
    → Above lo (r ++ qs)
    → Above (run_start r + length r) qs
run-Above lo [] qs c a = Above-weaken lo (0 + 0) qs (omega arith) a
run-Above lo (p ∷ r) qs c a = chain-Above p.0 (p ∷ r) qs c (omega arith, a.1)

-- A run stays stored while nothing before its end changes.
pub Stored-chain :
    (s : ℕ) (ps : List Placed) (f g : ℕ → Block)
    → Chained s ps
    → ((j : ℕ) → j < s + length ps → g j ≡ f j)
    → Stored f ps
    → Stored g ps
Stored-chain s [] f g c same h = tt
Stored-chain s (p ∷ ps) f g c same h = (
  same p.0 (omega arith) ∙ h.0,
  Stored-chain (s + 1) ps f g c.1 (λ j lt. same j (omega arith)) h.1,
)

pub Stored-append :
    (f : ℕ → Block) (ps qs : List Placed) → Stored f ps → Stored f qs → Stored f (ps ++ qs)
Stored-append f [] qs h k = k
Stored-append f (p ∷ ps) qs h k = (h.0, Stored-append f ps qs h.1 k)
