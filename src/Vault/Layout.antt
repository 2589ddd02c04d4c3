-- ===== src/Vault/Layout.antt =====
-- src/vault.rs, `best_gen` and `resolve_layout`: where a device's spine lives.
use manifestus.Base.{
  ℕ, zero, suc, ◌+◌, ◌-◌, ◌*◌, min, Bool, true, false, Option, none, some, ltb, leb, if◌then◌else◌,
  slots,
}
use manifestus.Error.{Run, ◌>>=◌, pure}
use manifestus.Block.{BlockDev}
use manifestus.Ring.Codec.{Codec}
use manifestus.Ring.Entry.{Classified, valid, empty, corrupted, classify}
use manifestus.Ring.Root.{RootEntry, root_slots, read_root}

pub record DeviceLayout : Type 0 where
  pub spine_base : ℕ
  pub tract_base : ℕ
  pub has_root : Bool

-- `Option<u64>` as the source compares it: None sorts below Some(0).
abbrev pub gen_rank : Option ℕ → ℕ
gen_rank none = 0
gen_rank (some g) = suc g

-- The best generation and its slot after the block of a slot was classified.
unfoldable pub better_gen : Classified → ℕ → Option ℕ × ℕ → Option ℕ × ℕ
better_gen (valid e) slot best =
    if ltb (gen_rank best.0) (suc e.gen) then (some e.gen, slot) else best
better_gen empty slot best = best
better_gen corrupted slot best = best

module _ (c : Codec) {D : Type 0} (dev : BlockDev D) where
  unfoldable pub best_from : ℕ → ℕ → ℕ → ℕ → Option ℕ × ℕ → Run D (Option ℕ × ℕ)
  unfolding better_gen
  best_from ring_log2 base zero slot best = pure best
  best_from ring_log2 base (suc left) slot best = do
    b ← dev.read (base + slot)
    best_from ring_log2 base left (slot + 1)
        (better_gen (classify c b slot (some ring_log2)) slot best)

  -- Highest valid generation in one spine residence: a scan of all its slots.
  unfoldable pub best_gen : ℕ → ℕ → ℕ → Run D (Option ℕ × ℕ)
  unfolding best_from
  best_gen n ring_log2 base d =
      best_from ring_log2 base (min (dev.block_count d - base) n) 0 (none, 0) d

  -- The residence with the higher generation, the current one where they tie.
  abbrev pub chosen : RootEntry → Option ℕ × ℕ → Option ℕ × ℕ → DeviceLayout × (Option ℕ × ℕ)
  chosen root at was =
      let layout : ℕ → DeviceLayout = λ base. record {
        spine_base = base;
        tract_base = root_slots + root.residences * slots root.ring_log2;
        has_root = true;
      } in
      if leb (gen_rank was.0) (gen_rank at.0) then (layout root.at, at) else (layout root.was, was)

  abbrev pub layout_of : ℕ → Option RootEntry → Run D (DeviceLayout × (Option ℕ × ℕ))
  layout_of ring_log2 (some root) = do
    at ← best_gen (slots ring_log2) ring_log2 root.at
    was ← best_gen (slots ring_log2) ring_log2 root.was
    pure (chosen root at was)
  layout_of ring_log2 none = do
    best ← best_gen (slots ring_log2) ring_log2 0
    pure (record { spine_base = 0; tract_base = slots ring_log2; has_root = false }, best)

  unfoldable pub resolve_layout : ℕ → Run D (DeviceLayout × (Option ℕ × ℕ))
  unfolding best_gen
  resolve_layout ring_log2 = do root ← read_root c dev; layout_of ring_log2 root
