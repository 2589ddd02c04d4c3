-- ===== src/Mirror/Front.antt =====
-- src/mirror.rs, the failure matrix: what an operation done on both devices leaves and lands. The
-- front of a mirror is the medium of its first healthy device, which its readers see.
use manifestus.Base.{ℕ, ◌≡◌, refl, subst, ◌∙◌, Option, none, some}
use manifestus.Error.{Result, Run, ok, err, stuck, Keeps}
use manifestus.Block.{Block}
use manifestus.Media.{Medium}
use manifestus.Mirror.State.{Mirror}
use manifestus.Mirror.Ops.{
  mirrored, in_parallel, drop_secondary, settle_secondary, after_primary, join_threads, put_b,
}

-- `P` of the device, if it is present.
abbrev pub OnPresent {ℓ} : {D : Type 0} → (D → Type ℓ) → Option D → Type ℓ
OnPresent P none = Unit
OnPresent P (some d) = P d

module _ {A B : Type 0} where
  -- Every present device has what it should, and one is present.
  abbrev pub LandsOn : (A → Type 0) → (B → Type 0) → Option A → Option B → Type 0
  LandsOn P Q (some a) ob = P a × OnPresent Q ob
  LandsOn P Q none (some b) = Q b
  LandsOn P Q none none = ⊥

  abbrev pub Lands : (A → Type 0) → (B → Type 0) → Mirror A B → Type 0
  Lands P Q m = LandsOn P Q m.a m.b

  -- The mirror with the devices named, to split on them.
  abbrev pub with_devices : Option A → Option B → Mirror A B → Mirror A B
  with_devices oa ob m = record m { a = oa; b = ob }

module _ {A B : Type 0} (ma : Medium A) (mb : Medium B) where
  abbrev pub front_of : ℕ → Option A → Option B → Option Block
  front_of j (some a) ob = some (ma.view a j)
  front_of j none (some b) = some (mb.view b j)
  front_of j none none = none

  -- The block at `j` on the first healthy device.
  abbrev pub front : ℕ → Mirror A B → Option Block
  front j m = front_of j m.a m.b

  settle-front :
      (j : ℕ) (a : A) (m : Mirror A B) (x : Result (Unit {0}) × B)
      → front j (settle_secondary (record m { a = some a }) x).1 ≡ some (ma.view a j)
  unfolding drop_secondary
  settle-front j a m (ok u, b') = refl
  settle-front j a m (err e, b') = refl
  settle-front j a m (stuck, b') = refl

  module _ (j : ℕ) (on_a : Run A (Unit {0})) (on_b : Run B (Unit {0})) where
    after_primary-front :
        (a0 : A) (ob : Option B) (m : Mirror A B) (x : Result (Unit {0}) × A)
        → ma.view x.1 j ≡ ma.view a0 j
        → front j (after_primary on_b (with_devices (some a0) ob m) x).1 ≡ some (ma.view a0 j)
    after_primary-front a0 none m (ok u, a') h = λ i. some (h i)
    after_primary-front a0 (some b) m (ok u, a') h =
        settle-front j a' (with_devices (some a0) (some b) m) (on_b b) ∙ λ i. some (h i)
    after_primary-front a0 ob m (err e, a') h = λ i. some (h i)
    after_primary-front a0 ob m (stuck, a') h = λ i. some (h i)

    join_threads-front :
        (a0 : A) (m : Mirror A B) (x : Result (Unit {0}) × A) (y : Result (Unit {0}) × B)
        → ma.view x.1 j ≡ ma.view a0 j
        → front j (join_threads m x y).1 ≡ some (ma.view a0 j)
    join_threads-front a0 m (ok u, a') y h = settle-front j a' m y ∙ λ i. some (h i)
    join_threads-front a0 m (err e, a') (r, b') h = λ i. some (h i)
    join_threads-front a0 m (stuck, a') (r, b') h = λ i. some (h i)

    module _ (ka : Keeps (λ d. ma.view d j) on_a) (kb : Keeps (λ d. mb.view d j) on_b) where
      on_devices-front :
          (oa : Option A) (ob : Option B) (m : Mirror A B)
          → (front j (mirrored on_a on_b (with_devices oa ob m)).1 ≡ front_of j oa ob)
            × (front j (in_parallel on_a on_b (with_devices oa ob m)).1 ≡ front_of j oa ob)
      unfolding mirrored in_parallel
      on_devices-front (some a) none m = (after_primary-front a none m (on_a a) (ka a), refl)
      on_devices-front (some a) (some b) m = (
        after_primary-front a (some b) m (on_a a) (ka a),
        join_threads-front a (with_devices (some a) (some b) m) (on_a a) (on_b b) (ka a),
      )
      on_devices-front none (some b) m = (λ i. some (kb b i), refl)
      on_devices-front none none m = (refl, refl)

      -- What both devices leave at `j`, whatever the results, the front leaves.
      pub mirrored-front : Keeps (front j) (mirrored on_a on_b)
      mirrored-front m = (on_devices-front m.a m.b m).0

      pub in_parallel-front : Keeps (front j) (in_parallel on_a on_b)
      in_parallel-front m = (on_devices-front m.a m.b m).1

  pub Lands-front :
      (j : ℕ) (buf : Block) (m : Mirror A B)
      → Lands (λ d. ma.view d j ≡ buf) (λ d. mb.view d j ≡ buf) m
      → front j m ≡ some buf
  Lands-front j buf m h = go m.a m.b h
    where
      go :
          (oa : Option A) (ob : Option B)
          → LandsOn (λ d. ma.view d j ≡ buf) (λ d. mb.view d j ≡ buf) oa ob
          → front_of j oa ob ≡ some buf
      go (some a) ob k = λ i. some (k.0 i)
      go none (some b) k = λ i. some (k i)
      go none none k = absurd k

-- What an operation that succeeds on both devices establishes on each.
module _ {A B : Type 0} (P : A → Type 0) (Q : B → Type 0) (on_a : Run A (Unit {0}))
    (on_b : Run B (Unit {0})) (ha : (d d' : A) → on_a d ≡ (ok tt, d') → P d')
    (hb : (d d' : B) → on_b d ≡ (ok tt, d') → Q d') where
  settle-Lands :
      (a : A) (m m' : Mirror A B) (b : B) (x : Result (Unit {0}) × B)
      → P a
      → on_b b ≡ x
      → settle_secondary (record m { a = some a }) x ≡ (ok tt, m')
      → Lands P Q m'
  unfolding drop_secondary
  settle-Lands a m m' b (ok u, b') pa e h =
      subst (λ (t : Mirror A B). Lands P Q t) (λ i. (h i).1) (pa, hb b b' e)
  settle-Lands a m m' b (err e', b') pa e h =
      subst (λ (t : Mirror A B). Lands P Q t) (λ i. (h i).1) (pa, tt)
  settle-Lands a m m' b (stuck, b') pa e h =
      subst (λ (t : Mirror A B). Lands P Q t) (λ i. (h i).1) (pa, tt)

  after_primary-Lands :
      (a0 : A) (ob : Option B) (m m' : Mirror A B) (x : Result (Unit {0}) × A)
      → on_a a0 ≡ x
      → after_primary on_b (with_devices (some a0) ob m) x ≡ (ok tt, m')
      → Lands P Q m'
  after_primary-Lands a0 none m m' (ok u, a') e h =
      subst (λ (t : Mirror A B). Lands P Q t) (λ i. (h i).1) (ha a0 a' e, tt)
  after_primary-Lands a0 (some b) m m' (ok u, a') e h =
      settle-Lands a' (with_devices (some a0) (some b) m) m' b (on_b b) (ha a0 a' e) refl h
  after_primary-Lands a0 ob m m' (err e', a') e h = absurd (cc h)
  after_primary-Lands a0 ob m m' (stuck, a') e h = absurd (cc h)

  join_threads-Lands :
      (a0 : A) (b : B) (m m' : Mirror A B) (x : Result (Unit {0}) × A)
      → on_a a0 ≡ x
      → join_threads m x (on_b b) ≡ (ok tt, m')
      → Lands P Q m'
  join_threads-Lands a0 b m m' (ok u, a') e h = settle-Lands a' m m' b (on_b b) (ha a0 a' e) refl h
  join_threads-Lands a0 b m m' (err e', a') e h = absurd (cc h)
  join_threads-Lands a0 b m m' (stuck, a') e h = absurd (cc h)

  on_devices-Lands :
      (oa : Option A) (ob : Option B) (m m' : Mirror A B)
      → (mirrored on_a on_b (with_devices oa ob m) ≡ (ok tt, m') → Lands P Q m')
        × (in_parallel on_a on_b (with_devices oa ob m) ≡ (ok tt, m') → Lands P Q m')
  unfolding mirrored in_parallel
  on_devices-Lands (some a) none m m' =
      (λ h. after_primary-Lands a none m m' (on_a a) refl h, λ h. absurd (cc h))
  on_devices-Lands (some a) (some b) m m' = (
    λ h. after_primary-Lands a (some b) m m' (on_a a) refl h,
    λ h. join_threads-Lands a b (with_devices (some a) (some b) m) m' (on_a a) refl h,
  )
  on_devices-Lands none (some b) m m' = (λ h. alone (on_b b) refl h, λ h. absurd (cc h))
    where
      alone :
          (x : Result (Unit {0}) × B)
          → on_b b ≡ x
          → put_b (with_devices none (some b) m) x ≡ (ok tt, m')
          → Lands P Q m'
      alone (r, b') e h =
          subst (λ (t : Mirror A B). Lands P Q t) (λ i. (h i).1) (hb b b' (e ∙ λ i. ((h i).0, b')))
  on_devices-Lands none none m m' = (λ h. absurd (cc h), λ h. absurd (cc h))

  -- A mirrored operation that succeeds has landed on every device that is still present.
  pub mirrored-Lands : (m m' : Mirror A B) → mirrored on_a on_b m ≡ (ok tt, m') → Lands P Q m'
  mirrored-Lands m m' = (on_devices-Lands m.a m.b m m').0

  pub in_parallel-Lands : (m m' : Mirror A B) → in_parallel on_a on_b m ≡ (ok tt, m') → Lands P Q m'
  in_parallel-Lands m m' = (on_devices-Lands m.a m.b m m').1
