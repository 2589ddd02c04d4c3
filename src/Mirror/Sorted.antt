-- ===== src/Mirror/Sorted.antt =====
-- src/mirror.rs, `drain`: the sort by position and the dedup that keeps the last staging.
use manifestus.Base.{ℕ, ◌≤◌, ◌≡◌, ◌∙◌, refl, none, some, List, [], ◌∷◌, arith}
use manifestus.Block.{Block}
use manifestus.Mirror.Device.{Placed}
use manifestus.Mirror.Placed.{Stored, Avoids, Above}
use manifestus.Mirror.State.{last_at}
use manifestus.Mirror.Ops.{insert_placed, sort_placed, keep_later, dedup_placed}

-- Positions do not fall, from `lo` on.
abbrev Rising : ℕ → List Placed → Type 0
Rising lo [] = Unit {0}
Rising lo (p ∷ ps) = (lo ≤ p.0) × Rising p.0 ps

insert_placed-Rising :
    (lo : ℕ) (p : Placed) (qs : List Placed)
    → lo ≤ p.0
    → Rising lo qs
    → Rising lo (insert_placed p qs)
unfolding insert_placed
insert_placed-Rising lo p [] h r = (h, tt)
insert_placed-Rising lo p (q ∷ qs) h r = ground (arith, insert_placed-Rising q.0 p qs)

sort_placed-Rising : (ps : List Placed) → Rising 0 (sort_placed ps)
unfolding sort_placed
sort_placed-Rising [] = tt
sort_placed-Rising (p ∷ ps) =
    insert_placed-Rising 0 p (sort_placed ps) (omega arith) (sort_placed-Rising ps)

keep_later-Above :
    (lo : ℕ) (p : Placed) (qs : List Placed) → lo ≤ p.0 → Above p.0 qs → Above lo (keep_later p qs)
keep_later-Above lo p [] h a = (h, tt)
keep_later-Above lo p (q ∷ qs) h a = ground arith

dedup_placed-Above : (lo : ℕ) (ps : List Placed) → Rising lo ps → Above lo (dedup_placed ps)
unfolding dedup_placed
dedup_placed-Above lo [] r = tt
dedup_placed-Above lo (p ∷ ps) r =
    keep_later-Above lo p (dedup_placed ps) r.0 (dedup_placed-Above p.0 ps r.1)

-- What `drain` writes goes to strictly increasing positions.
pub drained-Above : (ps : List Placed) → Above 0 (dedup_placed (sort_placed ps))
drained-Above ps = dedup_placed-Above 0 (sort_placed ps) (sort_placed-Rising ps)

last_at-insert_placed :
    (lba : ℕ) (p : Placed) (qs : List Placed)
    → last_at lba (insert_placed p qs) ≡ last_at lba (p ∷ qs)
unfolding last_at insert_placed
last_at-insert_placed lba p [] = refl
last_at-insert_placed lba p (q ∷ qs) = ground (arith, last_at-insert_placed lba p qs)

last_at-cons :
    (lba : ℕ) (p : Placed) (ps qs : List Placed)
    → last_at lba ps ≡ last_at lba qs
    → last_at lba (p ∷ ps) ≡ last_at lba (p ∷ qs)
unfolding last_at
last_at-cons lba p ps qs h = rw h refl

last_at-sort_placed : (lba : ℕ) (ps : List Placed) → last_at lba (sort_placed ps) ≡ last_at lba ps
unfolding sort_placed
last_at-sort_placed lba [] = refl
last_at-sort_placed lba (p ∷ ps) =
    last_at-insert_placed lba p (sort_placed ps)
    ∙ last_at-cons lba p (sort_placed ps) ps (last_at-sort_placed lba ps)

last_at-keep_later :
    (lba : ℕ) (p : Placed) (qs : List Placed) → last_at lba (keep_later p qs) ≡ last_at lba (p ∷ qs)
unfolding last_at
last_at-keep_later lba p [] = refl
last_at-keep_later lba p (q ∷ qs) = ground arith

last_at-dedup_placed : (lba : ℕ) (ps : List Placed) → last_at lba (dedup_placed ps) ≡ last_at lba ps
unfolding dedup_placed
last_at-dedup_placed lba [] = refl
last_at-dedup_placed lba (p ∷ ps) =
    last_at-keep_later lba p (dedup_placed ps)
    ∙ last_at-cons lba p (dedup_placed ps) ps (last_at-dedup_placed lba ps)

-- What `drain` writes at a position is its last staging.
pub last_at-drained :
    (lba : ℕ) (ps : List Placed) → last_at lba (dedup_placed (sort_placed ps)) ≡ last_at lba ps
last_at-drained lba ps = last_at-dedup_placed lba (sort_placed ps) ∙ last_at-sort_placed lba ps

pub Stored-last_at :
    (f : ℕ → Block) (lba : ℕ) {b : Block} (ps : List Placed)
    → Stored f ps
    → last_at lba ps ≡ some b
    → f lba ≡ b
unfolding last_at
Stored-last_at f lba [] s h = absurd (cc h)
Stored-last_at f lba {b} (p ∷ ps) s h = ground (arith, Stored-last_at f lba {b = b} ps s.1)

pub Avoids-last_at : (lba : ℕ) (ps : List Placed) → last_at lba ps ≡ none → Avoids lba ps
unfolding last_at
Avoids-last_at lba [] h = tt
Avoids-last_at lba (p ∷ ps) h = ground (arith, Avoids-last_at lba ps)
