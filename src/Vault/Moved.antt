-- ===== src/Vault/Moved.antt =====
-- src/vault.rs, `migrate_ring`: the residence the spine moves to.
use manifestus.Base.{
  ℕ, ◌+◌, ◌-◌, ◌*◌, ◌/◌, ◌%◌, ◌≤◌, ◌<◌, ◌≡◌, ◌≢◌, ◌⊎◌, ◌∙◌, inl, inr, ap, le_or_lt, slots,
  slots_pos, arith,
}
use native.Mathlib.Nat.{mod-lt, mod-eq_of_lt, mod_self, mul-div_cancel}
use manifestus.Ring.Root.{RootEntry, root_slots}
use manifestus.Vault.State.{next_residence}

other_index : (i r : ℕ) → i < r → 1 < r → (i + 1) % r ≢ i
other_index i r h k = go (le_or_lt r (i + 1))
  where
    go : (r ≤ i + 1) ⊎ (i + 1 < r) → (i + 1) % r ≢ i
    go (inl x) e =
        let all : i + 1 ≡ r = omega arith in omega (arith, ap (λ (z : ℕ). z % r) all, mod_self r)
    go (inr x) e = omega (arith, mod-eq_of_lt x)

-- From the residence `i` of the band, the spine moves to another residence of the band, when there
-- are two or more.
pub next_residence-other :
    (root : RootEntry) (i : ℕ)
    → i < root.residences
    → 1 < root.residences
    → (j : ℕ) × (j < root.residences)
      × (j ≢ i)
      × (next_residence root (root_slots + i * slots root.ring_log2)
          ≡ root_slots + j * slots root.ring_log2)
unfolding next_residence
next_residence-other root i h k =
    let n : ℕ = slots root.ring_log2 in
    let off : root_slots + i * n - root_slots ≡ i * n = omega arith in
    let at : (root_slots + i * n - root_slots) / n ≡ i =
      ap (λ (z : ℕ). z / n) off ∙ mul-div_cancel i (slots_pos root.ring_log2) in
    (
      (i + 1) % root.residences,
      mod-lt (i + 1) (omega arith),
      other_index i root.residences h k,
      ap (λ (z : ℕ). root_slots + (z + 1) % root.residences * n) at,
    )
