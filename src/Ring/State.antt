-- ===== src/Ring/State.antt =====
-- src/ring.rs, `struct Ring`: opening, the head search and the append of a generation.
use manifestus.Base.{
  ℕ, zero, suc, ◌+◌, ◌-◌, min, not, Option, none, some, List, [], ◌∷◌, bytes_eq, ◌==◌,
  if◌then◌else◌, slots, masked,
}
use manifestus.Error.{Result, Run, ok, err, stuck, corrupt, and_then, ◌>>=◌, ◌>>◌, pure, lift}
use manifestus.Block.{Block, BlockDev, zero_block}
use manifestus.Mirror.State.{Mirror}
use manifestus.Mirror.Ops.{write_verified}
use manifestus.Mirror.Reads.{read, block_count}
use manifestus.Ring.Codec.{Codec}
use manifestus.Ring.Document.{zero_hash}
use manifestus.Ring.Entry.{
  SpineEntry, Classified, valid, empty, corrupted, encode, body_hash, classify, fence_budget,
}
use manifestus.Ring.Search.{Found, search}

pub record Ring (A B : Type 0) : Type 0 where
  pub mirror : Mirror A B
  pub ring_log2 : ℕ
  pub base : ℕ
  -- The head after an open or an append: its slot and entry.
  pub head : Option (ℕ × SpineEntry)

module _ {A B : Type 0} where
  abbrev pub put_mirror : {X : Type 0} → Ring A B → Result X × Mirror A B → Result X × Ring A B
  put_mirror r (x, m) = (x, record r { mirror = m })

  -- A method of the ring's mirror.
  abbrev pub on_mirror : {X : Type 0} → Run (Mirror A B) X → Run (Ring A B) X
  on_mirror f r = put_mirror r (f r.mirror)

  unfoldable pub n : Ring A B → ℕ
  n r = slots r.ring_log2

  unfoldable pub set_base : ℕ → Ring A B → Ring A B
  set_base base r = record r { base = base }

  unfoldable pub head_entry : Ring A B → Option SpineEntry
  head_entry r = elim r.head [ none ↦ none | some h ↦ some h.1 ]

-- What an append refuses: a generation or a hash that does not chain, or another geometry.
unfoldable pub check_chain : Codec → Option (ℕ × SpineEntry) → SpineEntry → Result (Unit {0})
check_chain c none entry =
    if not (entry.gen == 0)
    then err (corrupt "genesis must be gen 0")
    else if not (bytes_eq entry.prev_hash zero_hash)
    then err (corrupt "genesis prev_hash must be zeros")
    else ok tt
check_chain c (some (slot, h)) entry =
    if not (entry.gen == h.gen + 1)
    then err (corrupt "append gen after head")
    else and_then (body_hash c h) (λ hash.
      if not (bytes_eq entry.prev_hash hash)
      then err (corrupt "prev_hash does not chain to head")
      else ok tt)

unfoldable pub check_append : Codec → Option (ℕ × SpineEntry) → ℕ → SpineEntry → Result (Unit {0})
unfolding check_chain
check_append c head ring_log2 entry = and_then (check_chain c head entry) (λ _.
    if not (entry.ring_log2 == ring_log2)
    then err (corrupt "entry geometry does not match ring")
    else ok tt)

module _ (c : Codec) {A B : Type 0} (devA : BlockDev A) (devB : BlockDev B) where
  unfoldable pub gen_at : ℕ → Run (Ring A B) Classified
  gen_at slot r = put_mirror r (
      (read devA devB (r.base + slot) >>= (λ b. pure (classify c b slot (some r.ring_log2))))
        r.mirror)

  unfoldable pub head_search : Run (Ring A B) Found
  unfolding gen_at n
  head_search r = search gen_at 0 (n r - 1) r

  abbrev pub adopt_head : Result Found × Ring A B → Result (Ring A B)
  adopt_head (ok h, r) = ok (record r { head = h })
  adopt_head (err e, r) = err e
  adopt_head (stuck, r) = stuck

  unfoldable pub open_at : Mirror A B → ℕ → ℕ → Result (Ring A B)
  unfolding head_search
  open_at mirror ring_log2 base =
      adopt_head
        (head_search (record { mirror = mirror; ring_log2 = ring_log2; base = base; head = none }))

  unfoldable pub open_ring : Mirror A B → ℕ → Result (Ring A B)
  unfolding open_at
  open_ring mirror ring_log2 = open_at mirror ring_log2 0

  -- The write and the new head.
  unfoldable pub land : SpineEntry → Block → Run (Ring A B) (Unit {0})
  unfolding n
  land entry block r =
      let slot = masked entry.gen (n r) in
      (on_mirror (write_verified devA devB (r.base + slot) block)
          >> (λ r'. (ok tt, record r' { head = some (slot, entry) })))
        r

  unfoldable pub append : SpineEntry → Run (Ring A B) (Unit {0})
  unfolding check_append land
  append entry r =
      (lift (check_append c r.head r.ring_log2 entry) >> (lift (encode c entry) >>= land entry)) r

  -- The probe of the first slots, for an exponent.
  abbrev pub probed : Classified → Run (Mirror A B) (Option ℕ) → Run (Mirror A B) (Option ℕ)
  probed (valid e) rest = pure (some e.ring_log2)
  probed empty rest = rest
  probed corrupted rest = rest

  unfoldable pub bootstrap_from : ℕ → ℕ → Run (Mirror A B) (Option ℕ)
  bootstrap_from zero slot = pure none
  bootstrap_from (suc left) slot =
      let rest = bootstrap_from left (slot + 1) in
      (do b ← read devA devB slot; probed (classify c b slot none) rest)

  unfoldable pub bootstrap_n : Run (Mirror A B) (Option ℕ)
  unfolding bootstrap_from
  bootstrap_n m = bootstrap_from (min 16 (block_count devA devB m)) 0 m

  -- The slot's entry, if it is the generation wanted.
  abbrev pub of_gen : ℕ → Classified → Option SpineEntry
  of_gen gen (valid e) = if e.gen == gen then some e else none
  of_gen gen empty = none
  of_gen gen corrupted = none

  -- The loop over the last generations, newest first.
  unfoldable pub recent_from : ℕ → ℕ → Run (Ring A B) (List (Option SpineEntry))
  unfolding gen_at n
  recent_from zero gen = pure []
  recent_from (suc left) gen =
      let rest = recent_from left (gen - 1) in
      (do cls ← λ r. gen_at (masked gen (n r)) r; more ← rest; pure (of_gen gen cls ∷ more))

  unfoldable pub recent_entries : ℕ → Run (Ring A B) (List (Option SpineEntry))
  unfolding recent_from
  recent_entries k r = elim r.head [
    | none ↦ (ok [], r)
    | some h ↦ recent_from (min k (h.1.gen + 1)) h.1.gen r
  ]

unfoldable pub plows_of : List (Option SpineEntry) → List ℕ
plows_of [] = []
plows_of (none ∷ es) = 0 ∷ plows_of es
plows_of (some e ∷ es) = e.plow ∷ plows_of es

-- A slot of the window that is lost contributes 0, the most restrictive budget.
unfoldable pub fences_of : List (Option SpineEntry) → List ℕ
unfolding fence_budget
fences_of [] = []
fences_of (none ∷ es) = 0 ∷ fences_of es
fences_of (some e ∷ es) = fence_budget e ∷ fences_of es

module _ (c : Codec) {A B : Type 0} (devA : BlockDev A) (devB : BlockDev B) where
  unfoldable pub recent_plows : ℕ → Run (Ring A B) (List ℕ)
  unfolding recent_entries plows_of
  recent_plows k = do es ← recent_entries c devA devB k; pure (plows_of es)

  unfoldable pub recent_fences : ℕ → Run (Ring A B) (List ℕ)
  unfolding recent_entries fences_of
  recent_fences k = do es ← recent_entries c devA devB k; pure (fences_of es)

module _ {A B : Type 0} (devA : BlockDev A) (devB : BlockDev B) where
  unfoldable pub zero_from : ℕ → ℕ → Run (Mirror A B) (Unit {0})
  zero_from zero lba = pure tt
  zero_from (suc left) lba = write_verified devA devB lba zero_block >> zero_from left (lba + 1)

  unfoldable pub zero_ring_at : ℕ → ℕ → Run (Mirror A B) (Unit {0})
  unfolding zero_from
  zero_ring_at ring_log2 base = zero_from (slots ring_log2) base

  unfoldable pub zero_ring : ℕ → Run (Mirror A B) (Unit {0})
  unfolding zero_ring_at
  zero_ring ring_log2 = zero_ring_at ring_log2 0
