-- ===== src/Tract/Append.antt =====
-- src/tract.rs, `append_with`: what an append stages, and where.
use manifestus.Base.{
  ℕ, zero, suc, ◌+◌, ◌/◌, ◌%◌, ◌≤◌, ◌<◌, ◌≡◌, ◌≢◌, ◌⊎◌, ◌∙◌, inl, inr, refl, Bool, true, false,
  Option, none, some, List, [], ◌∷◌, ◌++◌, length, ltb, le_or_lt, ◌==◌, ==_iff, Bool-cases,
  if◌then◌else◌, arith,
}
use manifestus.Block.{Block}
use manifestus.Mirror.Device.{Placed}
use manifestus.Mirror.State.{Mirror, Batch, staged, last_at, push_last, stage_one}
use manifestus.Tract.{Tract, place, stage_from}
use mathlib.Core.List.{append_assoc}
use native.Mathlib.Nat.{div-add-mod, mul-le-mul_left, mul-suc}

-- Positions less than a lap apart are different ones.
pub mod_apart : (a b len : ℕ) → a < b → b < a + len → a % len ≢ b % len
mod_apart a b len h k e = go (le_or_lt (b / len) (a / len))
  where
    go : (b / len ≤ a / len) ⊎ (a / len < b / len) → ⊥
    go (inl x) = omega (arith, div-add-mod a len, div-add-mod b len, mul-le-mul_left len x)
    go (inr x) =
        omega (
          arith,
          div-add-mod a len,
          div-add-mod b len,
          mul-le-mul_left len x,
          mul-suc len (a / len),
        )

staged-push_last : (p : Placed) (q : List Batch) → staged (push_last p q) ≡ staged q ++ p ∷ []
unfolding staged push_last
staged-push_last p [] = refl
staged-push_last p (x ∷ []) = go (ltb (length x.items) x.room)
  where
    go :
        (b : Bool)
        → staged (
            if b
            then record x { items = x.items ++ p ∷ [] } ∷ []
            else x ∷ record { room = 1; items = p ∷ [] } ∷ [])
          ≡ x.items ++ [] ++ p ∷ []
    go true = simp append_assoc
    go false = simp append_assoc
staged-push_last p (x ∷ y ∷ r) = rw (staged-push_last p (y ∷ r)) (simp append_assoc)

last_at-snoc :
    (x : ℕ) (p : Placed) (ps : List Placed)
    → last_at x (ps ++ p ∷ []) ≡ (if p.0 == x then some p.1 else last_at x ps)
unfolding last_at
last_at-snoc x p [] = refl
last_at-snoc x p (q ∷ ps) = rw (last_at-snoc x p ps) (go (p.0 == x))
  where
    own : Option Block → Option Block
    own o = elim o [ some b ↦ some b | none ↦ if q.0 == x then some q.1 else none ]

    go :
        (b : Bool)
        → own (if b then some p.1 else last_at x ps) ≡ (if b then some p.1 else own (last_at x ps))
    go true = refl
    go false = refl

module _ {A B : Type 0} where
  -- The staged block at a position.
  abbrev pub staged_at : ℕ → Mirror A B → Option Block
  staged_at x m = last_at x (staged m.pending)

  stage_one-same : (x : ℕ) (b : Block) (m : Mirror A B) → staged_at x (stage_one x b m) ≡ some b
  unfolding stage_one
  stage_one-same x b m =
      rw
        (
          staged-push_last (x, b) m.pending,
          last_at-snoc x (x, b) (staged m.pending),
          (==_iff x x).1 refl,
        )
        refl

  stage_one-other :
      (x y : ℕ) (b : Block) (m : Mirror A B) → y ≢ x → staged_at x (stage_one y b m) ≡ staged_at x m
  unfolding stage_one
  stage_one-other x y b m ne =
      rw (staged-push_last (y, b) m.pending, last_at-snoc x (y, b) (staged m.pending))
        (go (Bool-cases (y == x)))
    where
      go :
          ((y == x) ≡ true) ⊎ ((y == x) ≡ false)
          → (if y == x then some b else staged_at x m) ≡ staged_at x m
      go (inl h) = absurd (ne ((==_iff y x).0 h))
      go (inr h) = rw h refl

  module _ (t : Tract) (make : ℕ → Block) where
    pub stage_from-other :
        (left i x : ℕ) (m : Mirror A B)
        → ((k : ℕ) → i ≤ k → k < i + left → t.base + place t k ≢ x)
        → staged_at x (stage_from t make left i m) ≡ staged_at x m
    unfolding stage_from
    stage_from-other zero i x m h = refl
    stage_from-other (suc left) i x m h =
        stage_from-other left (i + 1) x (stage_one (t.base + place t i) (make i) m)
          (λ k a b. h k (omega arith) (omega arith))
        ∙ stage_one-other x (t.base + place t i) (make i) m (h i (omega arith) (omega arith))

    -- The loop stages block `k` at the `k`th position past the plow: within a lap no later one
    -- covers it.
    pub stage_from-at :
        (left i k : ℕ) (m : Mirror A B)
        → left ≤ t.len
        → i ≤ k
        → k < i + left
        → staged_at (t.base + place t k) (stage_from t make left i m) ≡ some (make k)
    unfolding stage_from
    stage_from-at zero i k m small a b = absurd (omega arith)
    stage_from-at (suc left) i k m small a b =
        go (le_or_lt k i) (stage_from-at left (i + 1) k next (omega arith))
      where
        next : Mirror A B
        next = stage_one (t.base + place t i) (make i) m

        go :
            (k ≤ i) ⊎ (i < k)
            → (i + 1 ≤ k
                → k < i + 1 + left
                → staged_at (t.base + place t k) (stage_from t make left (i + 1) next)
                  ≡ some (make k))
            → staged_at (t.base + place t k) (stage_from t make left (i + 1) next) ≡ some (make k)
        go (inr x) later = later (omega arith) (omega arith)
        go (inl x) later =
            let same : k ≡ i = omega arith in
            rw same (
              stage_from-other left (i + 1) (t.base + place t i) next (λ j c d e.
                mod_apart (t.plow + i) (t.plow + j) t.len (omega arith) (omega arith) (omega arith))
              ∙ stage_one-same (t.base + place t i) (make i) m)
