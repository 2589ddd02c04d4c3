-- ===== src/Ring/Newest.antt =====
-- src/ring.rs, `search`: the order of generations on a rotated ring, and what a comparison of two of
-- its slots prunes.
use manifestus.Base.{
  ℕ, suc, ◌-◌, ◌≤◌, ◌<◌, ◌≡◌, ◌⊎◌, inl, inr, none, some, leb, if◌then◌else◌, Bool, true, false,
  le_or_lt, arith,
}
use manifestus.Ring.Entry.{Classified, valid, empty, corrupted}
use manifestus.Ring.Search.{Found, max_by_gen}

-- A slot's place in the order of generations: nothing readable sorts below generation 0.
abbrev pub rank : Classified → ℕ
rank (valid e) = suc e.gen
rank empty = 0
rank corrupted = 0

abbrev pub IsReadable : Classified → Type 0
IsReadable corrupted = ⊥
IsReadable _ = Unit {0}

-- The slots of a ring: generations rise up to slot `p`, those beyond it are no newer and rise too, or
-- the first lap has not reached them. Corrupt slots say nothing.
pub record Rotated (f : ℕ → Classified) (p top : ℕ) : Type 0 where
  pub rising :
      (i j : ℕ) → i < j → j ≤ p → IsReadable (f i) → IsReadable (f j) → rank (f i) < rank (f j)
  pub falls :
      (i j : ℕ)
      → i ≤ p
      → p < j
      → j ≤ top
      → IsReadable (f i)
      → IsReadable (f j)
      → rank (f j) ≤ rank (f i)
  pub late :
      ((j : ℕ) → p < j → j ≤ top → rank (f j) ≡ 0)
      ⊎ ((i j : ℕ)
          → p < i
          → i < j
          → j ≤ top
          → IsReadable (f i)
          → IsReadable (f j)
          → rank (f i) < rank (f j))

abbrev pub found_rank : Found → ℕ
found_rank none = 0
found_rank (some (s, e)) = suc e.gen

-- The result is an entry of the range, and no slot of the range holds a newer one.
abbrev pub IsAt : (ℕ → Classified) → ℕ → ℕ → Found → Type 0
IsAt f lo hi none = Unit {0}
IsAt f lo hi (some (s, e)) = (lo ≤ s) × (s ≤ hi) × (f s ≡ valid e)

pub record IsNewest (f : ℕ → Classified) (lo hi : ℕ) (r : Found) : Type 0 where
  pub is_at : IsAt f lo hi r
  pub newest : (j : ℕ) → lo ≤ j → j ≤ hi → rank (f j) ≤ found_rank r

module _ (f : ℕ → Classified) where
  -- A bound on the readable slots is a bound on all.
  bound_readable : (x : Classified) (k : ℕ) → (IsReadable x → rank x ≤ k) → rank x ≤ k
  bound_readable (valid e) k h = h tt
  bound_readable empty k h = h tt
  bound_readable corrupted k h = omega arith

  IsAt-widen :
      (lo hi lo' hi' : ℕ) (r : Found) → lo' ≤ lo → hi ≤ hi' → IsAt f lo hi r → IsAt f lo' hi' r
  IsAt-widen lo hi lo' hi' none h k a = tt
  IsAt-widen lo hi lo' hi' (some (s, e)) h k a = (omega arith, omega arith, a.2)

  module _ (p top : ℕ) (rot : Rotated f p top) where
    -- A newer entry at `mid` prunes the left.
    pub prune_left :
        (lo mid j : ℕ)
        → mid ≤ top
        → IsReadable (f lo)
        → IsReadable (f mid)
        → rank (f lo) < rank (f mid)
        → lo ≤ j
        → j < mid
        → rank (f j) ≤ rank (f mid)
    prune_left lo mid j inside rl rm newer h k =
        bound_readable (f j) (rank (f mid))
          (λ rj. split rj (le_or_lt mid p) (le_or_lt lo p) rot.late)
      where
        split :
            IsReadable (f j)
            → (mid ≤ p) ⊎ (p < mid)
            → (lo ≤ p) ⊎ (p < lo)
            → ((j : ℕ) → p < j → j ≤ top → rank (f j) ≡ 0)
              ⊎ ((i j : ℕ)
                  → p < i
                  → i < j
                  → j ≤ top
                  → IsReadable (f i)
                  → IsReadable (f j)
                  → rank (f i) < rank (f j))
            → rank (f j) ≤ rank (f mid)
        split rj (inl a) b l = omega (arith, rot.rising j mid k (omega arith) rj rm)
        split rj (inr a) (inl b) l =
            omega (arith, rot.falls lo mid (omega arith) (omega arith) inside rl rm)
        split rj (inr a) (inr b) (inl none_yet) = omega (arith, none_yet mid (omega arith) inside)
        split rj (inr a) (inr b) (inr older) =
            omega (arith, older j mid (omega arith) k inside rj rm)

    -- An entry at `mid` that is no newer prunes the right.
    pub prune_right :
        (lo mid j : ℕ)
        → lo < mid
        → j ≤ top
        → IsReadable (f lo)
        → IsReadable (f mid)
        → rank (f mid) ≤ rank (f lo)
        → mid ≤ j
        → rank (f j) ≤ rank (f lo)
    prune_right lo mid j apart inside rl rm older k =
        bound_readable (f j) (rank (f lo))
          (λ rj. split rj (le_or_lt mid p) (le_or_lt lo p) rot.late)
      where
        split :
            IsReadable (f j)
            → (mid ≤ p) ⊎ (p < mid)
            → (lo ≤ p) ⊎ (p < lo)
            → ((j : ℕ) → p < j → j ≤ top → rank (f j) ≡ 0)
              ⊎ ((i j : ℕ)
                  → p < i
                  → i < j
                  → j ≤ top
                  → IsReadable (f i)
                  → IsReadable (f j)
                  → rank (f i) < rank (f j))
            → rank (f j) ≤ rank (f lo)
        split rj (inl a) b l = omega (arith, rot.rising lo mid apart (omega arith) rl rm)
        split rj (inr a) (inl b) l = rot.falls lo j (omega arith) (omega arith) inside rl rj
        split rj (inr a) (inr b) (inl none_yet) = omega (arith, none_yet j (omega arith) inside)
        split rj (inr a) (inr b) (inr late) =
            omega (arith, late lo mid (omega arith) apart (omega arith) rl rm)

  -- The newest of a part is the newest of the range when nothing outside the part is newer.
  pub IsNewest-widen :
      (lo hi lo' hi' : ℕ) (r : Found)
      → lo' ≤ lo
      → hi ≤ hi'
      → IsNewest f lo hi r
      → ((j : ℕ) → lo' ≤ j → j < lo → rank (f j) ≤ found_rank r)
      → ((j : ℕ) → hi < j → j ≤ hi' → rank (f j) ≤ found_rank r)
      → IsNewest f lo' hi' r
  IsNewest-widen lo hi lo' hi' r h k w left right = record {
    is_at = IsAt-widen lo hi lo' hi' r h k w.is_at;
    newest = λ j a b. place j a b (le_or_lt lo j) (le_or_lt j hi);
  }
    where
      place :
          (j : ℕ)
          → lo' ≤ j
          → j ≤ hi'
          → (lo ≤ j) ⊎ (j < lo)
          → (j ≤ hi) ⊎ (hi < j)
          → rank (f j) ≤ found_rank r
      place j a b (inl x) (inl y) = w.newest j (omega arith) (omega arith)
      place j a b (inl x) (inr y) = right j (omega arith) b
      place j a b (inr x) y = left j a (omega arith)

  max_by_gen-left : (x y : Found) → found_rank x ≤ found_rank (max_by_gen x y)
  unfolding max_by_gen
  max_by_gen-left none y = omega arith
  max_by_gen-left (some x) none = omega arith
  max_by_gen-left (some (s, x)) (some (t, y)) = ground arith

  max_by_gen-right : (x y : Found) → found_rank y ≤ found_rank (max_by_gen x y)
  unfolding max_by_gen
  max_by_gen-right none none = omega arith
  max_by_gen-right none (some y) = omega arith
  max_by_gen-right (some x) none = omega arith
  max_by_gen-right (some (s, x)) (some (t, y)) = ground arith

  max_by_gen-IsAt :
      (lo hi : ℕ) (x y : Found) → IsAt f lo hi x → IsAt f lo hi y → IsAt f lo hi (max_by_gen x y)
  unfolding max_by_gen
  max_by_gen-IsAt lo hi none none a b = b
  max_by_gen-IsAt lo hi none (some y) a b = b
  max_by_gen-IsAt lo hi (some x) none a b = a
  max_by_gen-IsAt lo hi (some (s, x)) (some (t, y)) a b = pick (leb y.gen x.gen)
    where
      pick : (c : Bool) → IsAt f lo hi (if c then some (s, x) else some (t, y))
      pick true = a
      pick false = b

  -- Both halves around an ambiguous slot.
  pub max_by_gen-IsNewest :
      (lo mid hi : ℕ) (x y : Found)
      → lo < mid
      → mid ≤ hi
      → IsNewest f lo (mid - 1) x
      → IsNewest f mid hi y
      → IsNewest f lo hi (max_by_gen x y)
  max_by_gen-IsNewest lo mid hi x y a b l r = record {
    is_at =
        max_by_gen-IsAt lo hi x y
          (IsAt-widen lo (mid - 1) lo hi x (omega arith) (omega arith) l.is_at)
          (IsAt-widen mid hi lo hi y (omega arith) (omega arith) r.is_at);
    newest = λ j h k. side j h k (le_or_lt mid j);
  }
    where
      side :
          (j : ℕ)
          → lo ≤ j
          → j ≤ hi
          → (mid ≤ j) ⊎ (j < mid)
          → rank (f j) ≤ found_rank (max_by_gen x y)
      side j h k (inr c) = omega (arith, l.newest j h (omega arith), max_by_gen-left x y)
      side j h k (inl c) = omega (arith, r.newest j (omega arith) k, max_by_gen-right x y)
