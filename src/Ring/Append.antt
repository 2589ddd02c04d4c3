-- ===== src/Ring/Append.antt =====
-- src/ring.rs, `Ring::append`: what a committed generation is, and what a refused one leaves.
use manifestus.Base.{
  ℕ, ◌+◌, ◌≡◌, ◌≢◌, ◌∙◌, refl, sym, ap, subst, Bool, true, false, not, Option, none, some, List,
  bytes_eq, eq_of_bytes_eq, ◌==◌, ==_iff, if◌then◌else◌, slots, masked,
}
use manifestus.Error.{
  Result, ok, err, stuck, Error, is_ok, continue, and_then, ◌>>=◌, ◌>>◌, lift, >>-eq-ok,
}
use manifestus.Block.{Block}
use manifestus.Media.{Medium}
use manifestus.Mirror.State.{Mirror, staged, last_at}
use manifestus.Mirror.Ops.{write_verified}
use manifestus.Mirror.Front.{front}
use manifestus.Mirror.Drain.{Holds, write_verified-stores, write_verified-front}
use manifestus.Ring.Codec.{Codec, IsLawful}
use manifestus.Ring.Document.{zero_hash}
use manifestus.Ring.Entry.{SpineEntry, valid, encode, body_hash, classify}
use manifestus.Ring.Roundtrip.{IsSound}
use manifestus.Ring.Sealed.{sealed_block}
use manifestus.Ring.Wire.{body, encode-IsSound, classify-sealed}
use manifestus.Ring.State.{Ring, put_mirror, on_mirror, n, check_chain, check_append, land, append}

-- The entry is the generation after the head, and carries the hash of the head's body; the first is
-- generation 0 and carries zeros.
abbrev pub Chains : Codec → Option (ℕ × SpineEntry) → SpineEntry → Type 0
Chains c none entry = (entry.gen ≡ 0) × (entry.prev_hash ≡ zero_hash)
Chains c (some (slot, h)) entry = (entry.gen ≡ h.gen + 1) × (body_hash c h ≡ ok entry.prev_hash)

and_then-eq-ok :
    {X Y : Type 0} (r : Result X) (f : X → Result Y) {y : Y}
    → and_then r f ≡ ok y
    → (x : X) × (r ≡ ok x) × (f x ≡ ok y)
and_then-eq-ok (ok x) f h = (x, refl, h)
and_then-eq-ok (err e) f h = absurd (cc h)
and_then-eq-ok stuck f h = absurd (cc h)

ok_value : {X : Type 0} {x y : X} → ok x ≡ ok y → x ≡ y
ok_value h = cc h

-- A guard that did not refuse.
guard_passed :
    {X : Type 0} (b : Bool) (e : Error) (r : Result X) {x : X}
    → (if not b then err e else r) ≡ ok x
    → (b ≡ true) × (r ≡ ok x)
guard_passed true e r h = (refl, h)
guard_passed false e r h = absurd (cc h)

check_chain-Chains :
    (c : Codec) (head : Option (ℕ × SpineEntry)) (entry : SpineEntry)
    → check_chain c head entry ≡ ok tt
    → Chains c head entry
unfolding check_chain
check_chain-Chains c none entry h =
    let (g, k) = guard_passed (entry.gen == 0) _ _ h in
    let (p, _) = guard_passed (bytes_eq entry.prev_hash zero_hash) _ (ok tt) k in
    ((==_iff entry.gen 0).0 g, eq_of_bytes_eq entry.prev_hash zero_hash p)
check_chain-Chains c (some (slot, h)) entry k =
    let (g, k1) = guard_passed (entry.gen == h.gen + 1) _ _ k in
    let (hash, e, k2) = and_then-eq-ok (body_hash c h) _ k1 in
    let (p, _) = guard_passed (bytes_eq entry.prev_hash hash) _ (ok tt) k2 in
    (
      (==_iff entry.gen (h.gen + 1)).0 g,
      e ∙ ap (λ (x : List ℕ). ok x) (sym (eq_of_bytes_eq entry.prev_hash hash p)),
    )

check_append-Chains :
    (c : Codec) (head : Option (ℕ × SpineEntry)) (log2 : ℕ) (entry : SpineEntry)
    → check_append c head log2 entry ≡ ok tt
    → Chains c head entry × (entry.ring_log2 ≡ log2)
unfolding check_append
check_append-Chains c head log2 entry h =
    let (u, k, l) = and_then-eq-ok (check_chain c head entry) _ h in
    let (g, _) = guard_passed (entry.ring_log2 == log2) _ (ok tt) l in
    (check_chain-Chains c head entry k, (==_iff entry.ring_log2 log2).0 g)

put_mirror-eq-ok :
    {A B X : Type 0} (r : Ring A B) (x : Result X × Mirror A B) {a : X} {r' : Ring A B}
    → put_mirror r x ≡ (ok a, r')
    → (m : Mirror A B) × (x ≡ (ok a, m)) × (record r { mirror = m } ≡ r')
put_mirror-eq-ok r (ok x, m) h = (m, cc h, ap (λ y. y.1) h)
put_mirror-eq-ok r (err e, m) h = absurd (cc h)
put_mirror-eq-ok r (stuck, m) h = absurd (cc h)

module _ (c : Codec) {A B : Type 0} (ma : Medium A) (mb : Medium B) where
  abbrev pub slot_of : SpineEntry → Ring A B → ℕ
  slot_of entry r = masked entry.gen (n r)

  land-stores :
      (entry : SpineEntry) (block : Block) (r r' : Ring A B)
      → land c ma.dev mb.dev entry block r ≡ (ok tt, r')
      → Holds ma mb (r.base + slot_of entry r) block r'.mirror
        × (r'.head ≡ some (slot_of entry r, entry))
  unfolding land
  land-stores entry block r r' h =
      let (r1, h1, h2) =
        >>-eq-ok (on_mirror (write_verified ma.dev mb.dev (r.base + slot_of entry r) block)) _ r
          h in
      let (m, h3, h4) = put_mirror-eq-ok r _ h1 in
      let same : m ≡ r'.mirror = ap (λ (x : Ring A B). x.mirror) h4 ∙ ap (λ y. y.1.mirror) h2 in
      (
        subst (Holds ma mb (r.base + slot_of entry r) block) same
            (write_verified-stores ma mb (r.base + slot_of entry r) block r.mirror m h3),
        sym (ap (λ y. y.1.head) h2),
      )

  land-front :
      (entry : SpineEntry) (block : Block) (j : ℕ) (r : Ring A B)
      → j ≢ r.base + slot_of entry r
      → last_at j (staged r.mirror.pending) ≡ none
      → front ma mb j (land c ma.dev mb.dev entry block r).1.mirror ≡ front ma mb j r.mirror
  unfolding land ◌>>◌
  land-front entry block j r ne unstaged =
      written (write_verified ma.dev mb.dev (r.base + slot_of entry r) block r.mirror)
      ∙ write_verified-front ma mb (r.base + slot_of entry r) block j r.mirror ne unstaged
    where
      written :
          (x : Result (Unit {0}) × Mirror A B)
          → front ma mb j
              (continue
                (λ _ r'. (ok tt, record r' { head = some (slot_of entry r, entry) }))
                (put_mirror r x)).1.mirror
            ≡ front ma mb j x.1
      written (ok u, m) = refl
      written (err e, m) = refl
      written (stuck, m) = refl

  land-head :
      (entry : SpineEntry) (block : Block) (r : Ring A B)
      → is_ok (land c ma.dev mb.dev entry block r).0 ≡ false
      → (land c ma.dev mb.dev entry block r).1.head ≡ r.head
  unfolding land ◌>>◌
  land-head entry block r =
      failed (write_verified ma.dev mb.dev (r.base + slot_of entry r) block r.mirror)
    where
      after : Result (Unit {0}) × Mirror A B → Result (Unit {0}) × Ring A B
      after x =
          continue (λ _ r'. (ok tt, record r' { head = some (slot_of entry r, entry) }))
            (put_mirror r x)

      failed :
          (x : Result (Unit {0}) × Mirror A B)
          → is_ok (after x).0 ≡ false
          → (after x).1.head ≡ r.head
      failed (ok u, m) h = absurd (cc h)
      failed (err e, m) h = refl
      failed (stuck, m) h = refl

  -- Whatever its result, an append leaves the front everywhere but at the slot of the entry's
  -- generation and at the positions that were staged.
  pub append-front :
      (entry : SpineEntry) (j : ℕ) (r : Ring A B)
      → j ≢ r.base + slot_of entry r
      → last_at j (staged r.mirror.pending) ≡ none
      → front ma mb j (append c ma.dev mb.dev entry r).1.mirror ≡ front ma mb j r.mirror
  unfolding append ◌>>◌ ◌>>=◌
  append-front entry j r ne unstaged = go (check_append c r.head r.ring_log2 entry) (encode c entry)
    where
      go :
          (x : Result (Unit {0})) (y : Result Block)
          → front ma mb j ((lift x >> (lift y >>= land c ma.dev mb.dev entry)) r).1.mirror
            ≡ front ma mb j r.mirror
      go (ok u) (ok b) = land-front entry b j r ne unstaged
      go (ok u) (err e) = refl
      go (ok u) stuck = refl
      go (err e) y = refl
      go stuck y = refl

  -- An append that fails keeps the head.
  pub append-head :
      (entry : SpineEntry) (r : Ring A B)
      → is_ok (append c ma.dev mb.dev entry r).0 ≡ false
      → (append c ma.dev mb.dev entry r).1.head ≡ r.head
  unfolding append ◌>>◌ ◌>>=◌
  append-head entry r = go (check_append c r.head r.ring_log2 entry) (encode c entry)
    where
      run : Result (Unit {0}) → Result Block → Result (Unit {0}) × Ring A B
      run x y = (lift x >> (lift y >>= land c ma.dev mb.dev entry)) r

      go :
          (x : Result (Unit {0})) (y : Result Block)
          → is_ok (run x y).0 ≡ false
          → (run x y).1.head ≡ r.head
      go (ok u) (ok b) h = land-head entry b r h
      go (ok u) (err e) h = refl
      go (ok u) stuck h = refl
      go (err e) y h = refl
      go stuck y h = refl

  -- An entry that does not chain to the head, or has another geometry, is refused, and the ring and
  -- its devices are untouched.
  pub append-refuses :
      (entry : SpineEntry) (r : Ring A B)
      → ¬ (Chains c r.head entry × (entry.ring_log2 ≡ r.ring_log2))
      → (is_ok (append c ma.dev mb.dev entry r).0 ≡ false)
        × ((append c ma.dev mb.dev entry r).1 ≡ r)
  unfolding append ◌>>◌
  append-refuses entry r bad = go (check_append c r.head r.ring_log2 entry) refl
    where
      run : Result (Unit {0}) → Result (Unit {0}) × Ring A B
      run x = (lift x >> (lift (encode c entry) >>= land c ma.dev mb.dev entry)) r

      go :
          (x : Result (Unit {0}))
          → check_append c r.head r.ring_log2 entry ≡ x
          → (is_ok (run x).0 ≡ false) × ((run x).1 ≡ r)
      go (ok u) e = absurd (bad (check_append-Chains c r.head r.ring_log2 entry e))
      go (err x) e = (refl, refl)
      go stuck e = (refl, refl)

  -- The parts of an append that succeeded.
  append-parts :
      (entry : SpineEntry) (r r' : Ring A B)
      → append c ma.dev mb.dev entry r ≡ (ok tt, r')
      → (Chains c r.head entry × (entry.ring_log2 ≡ r.ring_log2))
        × (b : Block) × (encode c entry ≡ ok b)
        × (land c ma.dev mb.dev entry b r ≡ (ok tt, r'))
  unfolding append ◌>>◌ ◌>>=◌
  append-parts entry r r' = go (check_append c r.head r.ring_log2 entry) refl (encode c entry) refl
    where
      go :
          (x : Result (Unit {0}))
          → check_append c r.head r.ring_log2 entry ≡ x
          → (y : Result Block) → encode c entry ≡ y
          → (lift x >> (lift y >>= land c ma.dev mb.dev entry)) r ≡ (ok tt, r')
          → (Chains c r.head entry × (entry.ring_log2 ≡ r.ring_log2))
            × (b : Block) × (encode c entry ≡ ok b)
            × (land c ma.dev mb.dev entry b r ≡ (ok tt, r'))
      go (ok u) e (ok b) f h = (check_append-Chains c r.head r.ring_log2 entry e, b, f, h)
      go (ok u) e (err x) f h = absurd (cc h)
      go (ok u) e stuck f h = absurd (cc h)
      go (err x) e y f h = absurd (cc h)
      go stuck e y f h = absurd (cc h)

  -- Under a codec that obeys the laws, when the append of a sound entry succeeds, the entry chains
  -- to the old head and is the new one, and every present device, one of which there is, holds at
  -- the entry's slot a block that classifies as that entry.
  pub append-commits :
      IsLawful c
      → (entry : SpineEntry) (r r' : Ring A B) → IsSound entry
      → append c ma.dev mb.dev entry r ≡ (ok tt, r')
      → Chains c r.head entry
        × (r'.head ≡ some (slot_of entry r, entry))
        × (b : Block) × Holds ma mb (r.base + slot_of entry r) b r'.mirror
        × (classify c b (slot_of entry r) (some r.ring_log2) ≡ valid entry)
  unfolding n
  append-commits lawful entry r r' sound h =
      let (good, b, e, l) = append-parts entry r r' h in
      let (held, head) = land-stores entry b r r' l in
      let same : sealed_block c (body c lawful entry) ≡ b =
        ok_value (sym (encode-IsSound c lawful entry sound) ∙ e) in
      let here : slot_of entry r ≡ masked entry.gen (slots entry.ring_log2) =
        ap (λ (l : ℕ). masked entry.gen (slots l)) (sym good.1) in
      let there : classify c b (slot_of entry r) (some entry.ring_log2) ≡ valid entry =
        subst (λ (x : Block). classify c x (slot_of entry r) (some entry.ring_log2) ≡ valid entry)
          same (classify-sealed c lawful entry (slot_of entry r) sound here) in
      (
        good.0,
        head,
        b,
        held,
        subst (λ (l : ℕ). classify c b (slot_of entry r) (some l) ≡ valid entry) good.1 there,
      )
