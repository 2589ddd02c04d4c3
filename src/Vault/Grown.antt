-- ===== src/Vault/Grown.antt =====
-- src/vault.rs, `grow`: the cursors after a growth.
use manifestus.Base.{
  ℕ, ◌+◌, ◌-◌, ◌*◌, ◌/◌, ◌%◌, ◌≤◌, ◌<◌, ◌≡◌, ◌⊎◌, ◌∙◌, inl, inr, sym, ap, le_or_lt, arith,
}
use native.Mathlib.Nat.{
  mod-lt, mod-le, mod-eq_of_lt, mod-add-mod, div-add-mod, mul-add-mod_self_left, add-mod_right,
}
use manifestus.Tract.{Tract, clean_blocks, place}
use manifestus.Tract.Placed.{IsWellFormed}
use manifestus.Vault.Fence.{realign}
use manifestus.Vault.Clean.{once_around}

realigned : (plow len new : ℕ) → len < new → (plow + (len + new - plow % new) % new) % new ≡ len
realigned plow len new h = go (le_or_lt (plow % new) len)
  where
    whole : ℕ
    whole = new * (plow / new)

    go :
        (plow % new ≤ len) ⊎ (len < plow % new)
        → (plow + (len + new - plow % new) % new) % new ≡ len
    go (inl x) =
        let delta : (len + new - plow % new) % new ≡ len - plow % new =
          once_around (len + new - plow % new) new (omega arith) (omega arith) ∙ omega arith in
        let sum : plow + (len + new - plow % new) % new ≡ new * (plow / new) + len =
          omega (arith, div-add-mod plow new) in
        ap (λ (z : ℕ). z % new) sum ∙ mul-add-mod_self_left new (plow / new) len ∙ mod-eq_of_lt h
    go (inr x) =
        let r_small : plow % new < new = mod-lt plow (omega arith) in
        let delta : (len + new - plow % new) % new ≡ len + new - plow % new =
          mod-eq_of_lt (omega arith) in
        let sum : plow + (len + new - plow % new) % new ≡ new * (plow / new) + (len + new) =
          omega (arith, div-add-mod plow new) in
        ap (λ (z : ℕ). z % new) sum
        ∙ mul-add-mod_self_left new (plow / new) (len + new)
        ∙ add-mod_right len new
        ∙ mod-eq_of_lt h

-- When the tract grows, the plow does not go back, the cursors are in order, the clean region has
-- as many blocks as the tract gained, and lies in what it gained: every block of the old tract is
-- occupied.
pub realign-grown :
    (t : Tract) (new_tract_blocks : ℕ)
    → t.len < new_tract_blocks
    → (t.plow ≤ (realign new_tract_blocks t).plow)
      × IsWellFormed (realign new_tract_blocks t)
      × (clean_blocks (realign new_tract_blocks t) ≡ new_tract_blocks - t.len)
      × ((k : ℕ)
          → k < clean_blocks (realign new_tract_blocks t)
          → place (realign new_tract_blocks t) k ≡ t.len + k)
unfolding realign clean_blocks
realign-grown t new h =
    let plow : ℕ = t.plow + (t.len + new - t.plow % new) % new in
    let at : plow % new ≡ t.len = realigned t.plow t.len new h in
    let past : t.len ≤ plow = omega (arith, mod-le plow new) in
    (
      omega arith,
      record { reaped = omega arith; bounded = omega arith },
      omega arith,
      λ k inside.
          sym (mod-add-mod plow new k)
          ∙ ap (λ (z : ℕ). (z + k) % new) at
          ∙ mod-eq_of_lt (omega arith),
    )
