-- ===== src/Vault/Clean.antt =====
-- src/vault.rs, `derive_reap`, `fence_from` and the growth: the clean region holds nothing live, and
-- appends stay inside every budget of the window.
use manifestus.Base.{
  ℕ, ◌+◌, ◌-◌, ◌%◌, min, ◌≤◌, ◌<◌, ◌≡◌, ◌≢◌, ◌⊎◌, ◌∙◌, inl, inr, refl, sym, ap, subst, Bool, true,
  false, Option, none, List, [], ◌∷◌, length, ltb, lt_of_ltb, le_or_lt, if◌then◌else◌, arith,
}
use native.Mathlib.Nat.{mod-lt, mod-eq_of_lt, mod-eq-sub-mod, mod-add-mod}
use manifestus.Error.{ok}
use manifestus.Block.{Block}
use manifestus.Mirror.State.{Mirror}
use manifestus.Ring.Entry.{fence_k}
use manifestus.Tract.{Liveness, Tract, clean_blocks, place, append_with}
use manifestus.Tract.Placed.{IsWellFormed, WithinFence, append-keeps}
use manifestus.Vault.Live.{LiveSet, positions}
use manifestus.Vault.Fence.{least_of, least, fence_from, clean_from, derive_reap}

abbrev pub Member : ℕ → List ℕ → Type 0
Member x [] = ⊥
Member x (y ∷ ys) = (x ≡ y) ⊎ Member x ys

pub once_around : (x len : ℕ) → len ≤ x → x < len + len → x % len ≡ x - len
once_around x len h k = mod-eq-sub-mod h ∙ mod-eq_of_lt (omega arith)

clean_from-le : (len pos clean : ℕ) (ls : List ℕ) → clean_from len pos clean ls ≤ clean
unfolding clean_from
clean_from-le len pos clean [] = omega arith
clean_from-le len pos clean (l ∷ ls) =
    omega (arith, clean_from-le len pos (min clean ((l + len - pos) % len)) ls)

clean_from-Member :
    (len pos clean lba : ℕ) (ls : List ℕ)
    → Member lba ls
    → clean_from len pos clean ls ≤ (lba + len - pos) % len
unfolding clean_from
clean_from-Member len pos clean lba [] i = absurd i
clean_from-Member len pos clean lba (l ∷ ls) (inl e) = omega (
  arith,
  clean_from-le len pos (min clean ((l + len - pos) % len)) ls,
  ap (λ (z : ℕ). (z + len - pos) % len) e,
)
clean_from-Member len pos clean lba (l ∷ ls) (inr i) =
    clean_from-Member len pos (min clean ((l + len - pos) % len)) lba ls i

clean_from-above :
    (len pos clean k : ℕ) (ls : List ℕ)
    → k ≤ clean
    → ((lba : ℕ) → Member lba ls → k ≤ (lba + len - pos) % len)
    → k ≤ clean_from len pos clean ls
unfolding clean_from
clean_from-above len pos clean k [] h f = h
clean_from-above len pos clean k (l ∷ ls) h f =
    clean_from-above len pos (min clean ((l + len - pos) % len)) k ls
      (omega (arith, f l (inl refl))) (λ lba i. f lba (inr i))

-- A position that the plow reaches in `k` blocks is `k` blocks downstream of it.
downstream : (plow len k : ℕ) → k < len → ((plow + k) % len + len - plow % len) % len ≡ k
downstream plow len k h =
    let pos : ℕ = plow % len in
    let small : pos < len = mod-lt plow (omega arith) in
    let at : (plow + k) % len ≡ (pos + k) % len = sym (mod-add-mod plow len k) in
    ap (λ (z : ℕ). (z + len - pos) % len) at ∙ go pos small (le_or_lt len (pos + k))
  where
    go :
        (pos : ℕ)
        → pos < len
        → (len ≤ pos + k) ⊎ (pos + k < len)
        → ((pos + k) % len + len - pos) % len ≡ k
    go pos s (inl x) =
        let e : (pos + k) % len + len - pos ≡ k =
          omega (arith, once_around (pos + k) len x (omega arith)) in
        ap (λ (z : ℕ). z % len) e ∙ mod-eq_of_lt h
    go pos s (inr x) =
        let e : (pos + k) % len + len - pos ≡ len + k = omega (arith, mod-eq_of_lt x) in
        ap (λ (z : ℕ). z % len) e
        ∙ once_around (len + k) len (omega arith) (omega arith)
        ∙ omega arith

least_of-le : (b : ℕ) (bs : List ℕ) → least_of b bs ≤ b
unfolding least_of
least_of-le b [] = omega arith
least_of-le b (c ∷ cs) = omega (arith, least_of-le (min b c) cs)

least_of-Member : (b x : ℕ) (bs : List ℕ) → Member x bs → least_of b bs ≤ x
unfolding least_of
least_of-Member b x [] i = absurd i
least_of-Member b x (c ∷ cs) (inl e) = omega (arith, least_of-le (min b c) cs)
least_of-Member b x (c ∷ cs) (inr i) = least_of-Member (min b c) x cs i

-- Once the window is full, the fence admits no end beyond any of its budgets.
fence_from-bounds :
    (bs : List ℕ) (end x : ℕ)
    → fence_k ≤ length bs
    → WithinFence (fence_from bs) end
    → Member x bs
    → end ≤ x
unfolding fence_from
fence_from-bounds bs end x full w i = go (ltb (length bs) fence_k) refl w
  where
    go :
        (b : Bool)
        → ltb (length bs) fence_k ≡ b
        → WithinFence (if b then none else least bs) end
        → end ≤ x
    go true e v = absurd (omega (arith, lt_of_ltb (length bs) fence_k e))
    go false e v = within bs i v
      where
        within : (bs : List ℕ) → Member x bs → WithinFence (least bs) end → end ≤ x
        within [] i v = absurd i
        within (b ∷ bs) (inl e) v = omega (arith, least_of-le b bs)
        within (b ∷ bs) (inr i) v = omega (arith, least_of-Member b x bs i)

module _ {A B : Type 0} where
  -- Under a fence from a full window, an append that succeeds ends within the budget of every
  -- generation of the window, and keeps the cursors in order.
  pub append-within_budgets :
      (budgets : List ℕ) (live : Liveness) (n : ℕ) (make : ℕ → Block) (t t' : Tract)
      (m m' : Mirror A B) (ps : List ℕ)
      → t.fence_limit ≡ fence_from budgets
      → fence_k ≤ length budgets
      → IsWellFormed t
      → append_with live n make (t, m) ≡ (ok ps, (t', m'))
      → IsWellFormed t' × ((b : ℕ) → Member b budgets → t'.plow ≤ b)
  append-within_budgets budgets live n make t t' m m' ps fence full w h =
      let (w', moved, within, _) = append-keeps live n make t t' m m' ps w h in
      let same : t'.fence_limit ≡ fence_from budgets =
        ap (λ (x : Tract). x.fence_limit) moved ∙ fence in
      (
        w',
        λ b i.
            fence_from-bounds budgets t'.plow b full
              (subst (λ (o : Option ℕ). WithinFence o t'.plow) same within) i,
      )

-- On the first lap nothing live lies ahead of the plow.
abbrev pub NoneAhead : ℕ → ℕ → LiveSet → Type 0
NoneAhead plow len live = (lba : ℕ) → Member lba (positions live) → plow < len → lba < plow

module _ (base plow len : ℕ) (fence : Option ℕ) (live : LiveSet) where
  -- The tract as an open derives it.
  abbrev pub derived : Tract
  derived = record {
    base = base;
    len = len;
    plow = plow;
    reap = derive_reap plow len live;
    fence_limit = fence;
  }

  module _ (pos_len : 0 < len) (none_ahead : NoneAhead plow len live) where
    clean : ℕ
    clean = clean_from len (plow % len) len (positions live)

    enough : len ≤ plow + clean
    unfolding clean
    enough = go (le_or_lt len plow)
      where
        go :
            (len ≤ plow) ⊎ (plow < len)
            → len ≤ plow + clean_from len (plow % len) len (positions live)
        go (inl x) = omega arith
        go (inr x) = omega (
          arith,
          clean_from-above len (plow % len) len (len - plow) (positions live) (omega arith)
              (λ lba i. far lba (none_ahead lba i x)),
        )
          where
            far : (lba : ℕ) → lba < plow → len - plow ≤ (lba + len - plow % len) % len
            far lba a =
                let p : plow % len ≡ plow = mod-eq_of_lt x in
                let e : (lba + len - plow % len) % len ≡ lba + len - plow =
                  ap (λ (z : ℕ). (lba + len - z) % len) p ∙ mod-eq_of_lt (omega arith) in
                omega arith

    -- For a tract that is not empty, and on the first lap with nothing live ahead of the plow: the
    -- reap that an open derives keeps the cursors in order, and no block that the clean space
    -- admits lands on a live position.
    pub derive_reap-clean :
        IsWellFormed derived
        × ((k lba : ℕ)
            → k < clean_blocks derived
            → Member lba (positions live)
            → place derived k ≢ lba)
    unfolding derive_reap clean_blocks clean
    derive_reap-clean =
        let most : clean ≤ len = clean_from-le len (plow % len) len (positions live) in
        (
          record { reaped = omega (arith, enough); bounded = omega (arith, enough) },
          λ k lba inside i e.
              let k_small : k < clean = omega (arith, enough) in
              omega (
                arith,
                clean_from-Member len (plow % len) len lba (positions live) i,
                downstream plow len k (omega arith),
                ap (λ (z : ℕ). (z + len - plow % len) % len) e,
              ),
        )
