-- ===== src/Ring/Search.antt =====
-- src/ring.rs, `search`: the bisection for the newest entry, over any way to read a slot.
use manifestus.Base.{ℕ, zero, suc, ◌+◌, ◌-◌, ◌/◌, Option, none, some, ltb, leb, if◌then◌else◌}
use manifestus.Error.{Run, ◌>>=◌, pure, lift, stuck}
use manifestus.Ring.Entry.{SpineEntry, Classified, valid, empty, corrupted}

abbrev pub Found : Type 0
Found = Option (ℕ × SpineEntry)

-- `Option<u64>` as the source compares it: None sorts below Some(0).
abbrev pub entry_rank : Option SpineEntry → ℕ
entry_rank none = 0
entry_rank (some e) = suc e.gen

unfoldable pub max_by_gen : Found → Found → Found
max_by_gen none none = none
max_by_gen none (some y) = some y
max_by_gen (some x) none = some x
max_by_gen (some (s, x)) (some (t, y)) = if leb y.gen x.gen then some (s, x) else some (t, y)

abbrev pub found_at : ℕ → Option SpineEntry → Found
found_at slot none = none
found_at slot (some e) = some (slot, e)

module _ {S : Type 0} (gen_at : ℕ → Run S Classified) where
  -- What the anchor loop does with the slot it read.
  abbrev pub anchor_case :
      Classified
      → ℕ
      → Run S (Option (ℕ × Option SpineEntry))
      → Run S (Option (ℕ × Option SpineEntry))
  anchor_case corrupted lo next = next
  anchor_case empty lo next = pure (some (lo, none))
  anchor_case (valid e) lo next = pure (some (lo, some e))

  -- Advance `lo` past Corrupt blocks.
  unfoldable pub anchor : ℕ → ℕ → ℕ → Run S (Option (ℕ × Option SpineEntry))
  anchor zero lo hi = lift stuck
  anchor (suc fuel) lo hi =
      let rest = anchor fuel (lo + 1) hi in
      if ltb hi lo then pure none else do cls ← gen_at lo; anchor_case cls lo rest

  abbrev pub resume :
      (ℕ → Option SpineEntry → ℕ → Run S Found) → ℕ → Option (ℕ × Option SpineEntry) → Run S Found
  resume go hi none = pure none
  resume go hi (some (lo, e)) = go lo e hi

  -- The whole of `search`, given the bisection loop.
  unfoldable pub search_with : (ℕ → Option SpineEntry → ℕ → Run S Found) → ℕ → ℕ → Run S Found
  search_with go lo hi = do a ← anchor (hi + 2 - lo) lo hi; resume go hi a

  -- A decision on the entry read at `mid`, or both halves where the read is ambiguous.
  unfoldable pub bisect_case :
      (ℕ → Option SpineEntry → ℕ → Run S Found)
      → ℕ
      → Option SpineEntry
      → ℕ
      → ℕ
      → Classified
      → Run S Found
  bisect_case go lo e hi mid corrupted = do
    left ← search_with go lo (mid - 1)
    right ← search_with go mid hi
    pure (max_by_gen left right)
  bisect_case go lo e hi mid empty = go lo e (mid - 1)
  bisect_case go lo e hi mid (valid x) =
      if ltb (entry_rank e) (suc x.gen) then go mid (some x) hi else go lo e (mid - 1)

  -- The `while lo < hi` loop, with fuel.
  unfoldable pub bisect : ℕ → ℕ → Option SpineEntry → ℕ → Run S Found
  bisect zero lo e hi = lift stuck
  bisect (suc fuel) lo e hi =
      let mid = (lo + hi + 1) / 2 in
      let step = bisect_case (bisect fuel) lo e hi mid in
      if ltb lo hi then (do cls ← gen_at mid; step cls) else pure (found_at lo e)

  -- The range shrinks at every step, so its length is fuel enough.
  unfoldable pub search : ℕ → ℕ → Run S Found
  search lo hi = search_with (bisect (suc (hi - lo))) lo hi
