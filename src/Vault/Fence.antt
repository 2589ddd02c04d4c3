-- ===== src/Vault/Fence.antt =====
-- src/vault.rs, `fence_from`, `derive_reap`, `reap_window`, and the realignment of the cursors in a
-- growth.
use manifestus.Base.{
  ℕ, ◌+◌, ◌-◌, ◌/◌, ◌%◌, ◌^◌, min, max, Option, none, some, List, [], ◌∷◌, length, ltb,
  if◌then◌else◌,
}
use manifestus.Ring.Entry.{fence_k}
use manifestus.Tract.{Tract}
use manifestus.Vault.Live.{LiveSet, positions}

-- `Iterator::min`
unfoldable pub least_of : ℕ → List ℕ → ℕ
least_of b [] = b
least_of b (c ∷ cs) = least_of (min b c) cs

abbrev pub least : List ℕ → Option ℕ
least [] = none
least (b ∷ bs) = some (least_of b bs)

-- The least budget of the window; no fence before there are as many generations as the window has.
unfoldable pub fence_from : List ℕ → Option ℕ
unfolding least_of
fence_from budgets = if ltb (length budgets) fence_k then none else least budgets

-- The loop over the live positions: the distance to the nearest one downstream of `pos`.
unfoldable pub clean_from : ℕ → ℕ → ℕ → List ℕ → ℕ
clean_from len pos clean [] = clean
clean_from len pos clean (lba ∷ lbas) =
    clean_from len pos (min clean ((lba + len - pos) % len)) lbas

unfoldable pub derive_reap : ℕ → ℕ → LiveSet → ℕ
unfolding clean_from positions
derive_reap plow len live = plow + clean_from len (plow % len) len (positions live) - len

abbrev pub reap_window_min : ℕ
reap_window_min = 16

unfoldable pub reap_window : Tract → ℕ
reap_window t = max (t.len / 2 ^ 6) reap_window_min

-- The clean region becomes the blocks appended, the occupied region the old tract.
unfoldable pub realign : ℕ → Tract → Tract
realign new_tract_blocks t =
    let plow = t.plow + (t.len + new_tract_blocks - t.plow % new_tract_blocks) % new_tract_blocks in
    record t { plow = plow; reap = plow - t.len; len = new_tract_blocks }
