-- ===== src/Hamt/Reported.antt =====
-- src/hamt.rs: what a walk reports: every position once, and only what it has reached.
use manifestus.Base.{
  ℕ, ◌≡◌, ◌∙◌, refl, sym, ap, Bool, true, false, ◌||◌, List, [], ◌∷◌, ◌++◌, ◌==◌, arith, Bool-cases,
  ◌⊎◌, inl, inr, subst,
}
use manifestus.Hamt.Walk.{is_reached}
use manifestus.Hamt.Scan.{Walk}
use manifestus.Hamt.Visit.{report}

unfoldable pub is_reported : ℕ → List (ℕ × List ℕ) → Bool
is_reported p [] = false
is_reported p (x ∷ xs) = x.0 == p || is_reported p xs

-- No position stands twice in the list.
abbrev pub AreDistinct : List (ℕ × List ℕ) → Type 0
AreDistinct [] = Unit {0}
AreDistinct (x ∷ xs) = (is_reported x.0 xs ≡ false) × AreDistinct xs

-- Every reported position is marked as reached.
abbrev pub AreReached : Walk → Type 0
AreReached w = (p : ℕ) → is_reported p w.out ≡ true → is_reached p w.visited.reached ≡ true

abbrev pub IsOnce : Walk → Type 0
IsOnce w = AreDistinct w.out × AreReached w

-- A position that is reached now and is not reported yet.
abbrev pub IsFresh : ℕ → Walk → Type 0
IsFresh lba w =
    IsOnce w × (is_reached lba w.visited.reached ≡ true) × (is_reported lba w.out ≡ false)

is_reported-append :
    (p q : ℕ) (hash : List ℕ) (xs : List (ℕ × List ℕ))
    → is_reported p (xs ++ (q, hash) ∷ []) ≡ (is_reported p xs || q == p)
unfolding is_reported
is_reported-append p q hash [] = or_false (q == p)
  where
    or_false : (b : Bool) → (b || false) ≡ b
    or_false true = refl
    or_false false = refl
is_reported-append p q hash (x ∷ xs) =
    ap (λ b. x.0 == p || b) (is_reported-append p q hash xs)
    ∙ or_assoc (x.0 == p) (is_reported p xs) (q == p)
  where
    or_assoc : (a b d : Bool) → (a || (b || d)) ≡ ((a || b) || d)
    or_assoc true b d = refl
    or_assoc false b d = refl

AreDistinct-append :
    (q : ℕ) (hash : List ℕ) (xs : List (ℕ × List ℕ))
    → AreDistinct xs
    → is_reported q xs ≡ false
    → AreDistinct (xs ++ (q, hash) ∷ [])
unfolding is_reported
AreDistinct-append q hash [] d n = (refl, tt)
AreDistinct-append q hash (x ∷ xs) (first, d) n =
    let apart : (x.0 == q) ≡ false = ground arith in
    let later : is_reported q xs ≡ false = ground arith in
    let turned : (q == x.0) ≡ false = ground arith in
    (
      is_reported-append x.0 q hash xs ∙ or_is_false first turned,
      AreDistinct-append q hash xs d later,
    )
  where
    or_is_false : {a b : Bool} → a ≡ false → b ≡ false → (a || b) ≡ false
    or_is_false h h' = rw (h, h')

-- A report of a fresh position.
pub report-IsOnce :
    (lba : ℕ) (hash : List ℕ) (w : Walk) → IsFresh lba w → IsOnce (report lba hash w)
report-IsOnce lba hash w ((d, k), there, new) = (
  AreDistinct-append lba hash w.out d new,
  λ p h.
      either p (Bool-cases (is_reported p w.out)) (sym (is_reported-append p lba hash w.out) ∙ h),
)
  where
    either :
        (p : ℕ)
        → (is_reported p w.out ≡ true) ⊎ (is_reported p w.out ≡ false)
        → (is_reported p w.out || lba == p) ≡ true
        → is_reached p w.visited.reached ≡ true
    either p (inl h) e = k p h
    either p (inr h) e =
        let same : lba ≡ p = ground arith in
        subst (λ x. is_reached x w.visited.reached ≡ true) same there

-- A position that was not reached is fresh once it is.
pub reached-IsFresh :
    (lba : ℕ) (w : Walk)
    → IsOnce w
    → is_reached lba w.visited.reached ≡ false
    → IsFresh lba (record w { visited = record w.visited { reached = lba ∷ w.visited.reached } })
unfolding is_reached
reached-IsFresh lba w (d, k) n = (
  (d, λ p h. or_true (lba == p) (k p h)),
  here (lba == lba) (is_reached lba w.visited.reached) (ground arith),
  new (Bool-cases (is_reported lba w.out)),
)
  where
    or_true : (a : Bool) {b : Bool} → b ≡ true → (a || b) ≡ true
    or_true true h = refl
    or_true false h = h

    here : (a b : Bool) → a ≡ true → (a || b) ≡ true
    here true b h = refl
    here false b h = cc

    new :
        (is_reported lba w.out ≡ true) ⊎ (is_reported lba w.out ≡ false)
        → is_reported lba w.out ≡ false
    new (inl h) = cc (k lba h)
    new (inr h) = h

pub reported_before :
    (p : ℕ) (xs ys : List (ℕ × List ℕ)) → is_reported p xs ≡ true → is_reported p (xs ++ ys) ≡ true
unfolding is_reported
reported_before p [] ys h = absurd (cc h)
reported_before p (x ∷ xs) ys h = go (x.0 == p) h (reported_before p xs ys)
  where
    go : (b : Bool) {m n : Bool} → (b || m) ≡ true → (m ≡ true → n ≡ true) → (b || n) ≡ true
    go true e k = refl
    go false e k = k e

unreported_before :
    (p : ℕ) (xs ys : List (ℕ × List ℕ))
    → is_reported p (xs ++ ys) ≡ false
    → is_reported p xs ≡ false
unreported_before p xs ys h = go (Bool-cases (is_reported p xs))
  where
    go : (is_reported p xs ≡ true) ⊎ (is_reported p xs ≡ false) → is_reported p xs ≡ false
    go (inl e) = cc (reported_before p xs ys e)
    go (inr e) = e

pub AreDistinct-before : (xs ys : List (ℕ × List ℕ)) → AreDistinct (xs ++ ys) → AreDistinct xs
AreDistinct-before [] ys d = tt
AreDistinct-before (x ∷ xs) ys (n, d) = (unreported_before x.0 xs ys n, AreDistinct-before xs ys d)
