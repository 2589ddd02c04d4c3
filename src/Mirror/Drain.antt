-- ===== src/Mirror/Drain.antt =====
-- src/mirror.rs, `drain` and the verified writes, at the level of the mirror.
use manifestus.Base.{
  ℕ, ◌≡◌, ◌≢◌, ◌∙◌, refl, Option, none, some, List, [], ◌∷◌, Bool, true, false, if◌then◌else◌,
  is_some, ◌&&◌, leb, length,
}
use manifestus.Error.{ok, Keeps, if-end, >>-end, >>-eq-ok}
use manifestus.Block.{Block}
use manifestus.Media.{Medium}
use manifestus.Mirror.Device.{Placed, write_one, write_each}
use manifestus.Mirror.Placed.{Stored, Avoids, Above}
use manifestus.Mirror.Verify.{write_one-frame, write_one-stores}
use manifestus.Mirror.Batch.{write_each-frame, write_each-stores}
use manifestus.Mirror.State.{Mirror, Batch, staged, last_at, without_all, forget}
use manifestus.Mirror.Ops.{
  sort_placed, dedup_placed, mirrored, in_parallel, par_batch_threshold, write_verified_batch_now,
  drain, write_verified,
}
use manifestus.Mirror.Front.{
  Lands, front, mirrored-front, in_parallel-front, mirrored-Lands, in_parallel-Lands,
}
use manifestus.Mirror.Sorted.{drained-Above, last_at-drained, Stored-last_at, Avoids-last_at}

module _ {A B : Type 0} (ma : Medium A) (mb : Medium B) where
  -- The test that picks the parallel path.
  abbrev wide : List Placed → Mirror A B → Bool
  wide ps m = is_some m.a && is_some m.b && leb par_batch_threshold (length ps)

  abbrev fresh : List Placed → Mirror A B → Mirror A B
  fresh ps m = record m { cache = without_all ps m.cache }

  batch_now-front :
      (ps : List Placed) (j : ℕ)
      → Avoids j ps
      → Keeps (front ma mb j) (write_verified_batch_now ma.dev mb.dev ps)
  unfolding write_verified_batch_now
  batch_now-front ps j a m =
      if-end (front ma mb j) (wide ps m)
        (in_parallel (write_each ma.dev ps) (write_each mb.dev ps) (fresh ps m))
        (mirrored (write_each ma.dev ps) (write_each mb.dev ps) (fresh ps m))
        (in_parallel-front ma mb j (write_each ma.dev ps) (write_each mb.dev ps)
          (write_each-frame ma ps j a) (write_each-frame mb ps j a) (fresh ps m))
        (mirrored-front ma mb j (write_each ma.dev ps) (write_each mb.dev ps)
          (write_each-frame ma ps j a) (write_each-frame mb ps j a) (fresh ps m))

  abbrev HasStored : List Placed → Mirror A B → Type 0
  HasStored ps = Lands (λ d. Stored (ma.view d) ps) (λ d. Stored (mb.view d) ps)

  batch_now-stores :
      (ps : List Placed) (m m' : Mirror A B)
      → Above 0 ps
      → write_verified_batch_now ma.dev mb.dev ps m ≡ (ok tt, m')
      → HasStored ps m'
  unfolding write_verified_batch_now
  batch_now-stores ps m m' up = choose (wide ps m)
    where
      choose :
          (c : Bool)
          → (if c
              then in_parallel (write_each ma.dev ps) (write_each mb.dev ps) (fresh ps m)
              else mirrored (write_each ma.dev ps) (write_each mb.dev ps) (fresh ps m))
            ≡ (ok tt, m')
          → HasStored ps m'
      choose true h =
          in_parallel-Lands _ _ _ _ (λ d d'. write_each-stores ma 0 ps d up)
            (λ d d'. write_each-stores mb 0 ps d up) (fresh ps m) m' h
      choose false h =
          mirrored-Lands _ _ _ _ (λ d d'. write_each-stores ma 0 ps d up)
            (λ d d'. write_each-stores mb 0 ps d up) (fresh ps m) m' h

  -- Every present device holds `buf` at `lba`, and one is present.
  abbrev pub Holds : ℕ → Block → Mirror A B → Type 0
  Holds lba buf = Lands (λ d. ma.view d lba ≡ buf) (λ d. mb.view d lba ≡ buf)

  HasStored→Holds :
      (ps : List Placed) (lba : ℕ) (buf : Block) (m : Mirror A B)
      → last_at lba ps ≡ some buf
      → HasStored ps m
      → Holds lba buf m
  HasStored→Holds ps lba buf m e = go m.a m.b
    where
      go :
          (oa : Option A) (ob : Option B)
          → HasStored ps (record m { a = oa; b = ob })
          → Holds lba buf (record m { a = oa; b = ob })
      go (some a) none h = (Stored-last_at (ma.view a) lba ps h.0 e, tt)
      go (some a) (some b) h =
          (Stored-last_at (ma.view a) lba ps h.0 e, Stored-last_at (mb.view b) lba ps h.1 e)
      go none (some b) h = Stored-last_at (mb.view b) lba ps h e
      go none none h = absurd h

  nothing_staged : (lba : ℕ) {buf : Block} → last_at lba (staged []) ≡ some buf → ⊥
  unfolding last_at staged
  nothing_staged lba e = cc

  -- A drain changes nothing on the front at a position that is not staged, whatever its result.
  pub drain-front :
      (j : ℕ) (m : Mirror A B)
      → last_at j (staged m.pending) ≡ none
      → front ma mb j (drain ma.dev mb.dev m).1 ≡ front ma mb j m
  unfolding drain
  drain-front j m = go m.pending
    where
      go :
          (q : List Batch)
          → last_at j (staged q) ≡ none
          → front ma mb j (drain ma.dev mb.dev (record m { pending = q })).1 ≡ front ma mb j m
      go [] e = refl
      go (x ∷ q) e =
          batch_now-front (dedup_placed (sort_placed (staged (x ∷ q)))) j
            (Avoids-last_at j _ (last_at-drained j (staged (x ∷ q)) ∙ e))
            (record m { pending = [] })

  -- A drain that succeeds has written the last staging of every staged position to every present
  -- device, verified.
  pub drain-stores :
      (lba : ℕ) (buf : Block) (m m' : Mirror A B)
      → last_at lba (staged m.pending) ≡ some buf
      → drain ma.dev mb.dev m ≡ (ok tt, m')
      → Holds lba buf m'
  unfolding drain
  drain-stores lba buf m m' = go m.pending
    where
      go :
          (q : List Batch)
          → last_at lba (staged q) ≡ some buf
          → drain ma.dev mb.dev (record m { pending = q }) ≡ (ok tt, m')
          → Holds lba buf m'
      go [] e h = absurd (nothing_staged lba e)
      go (x ∷ q) e h =
          let qs = dedup_placed (sort_placed (staged (x ∷ q))) in
          HasStored→Holds qs lba buf m' (last_at-drained lba (staged (x ∷ q)) ∙ e)
            (batch_now-stores qs (record m { pending = [] }) m' (drained-Above (staged (x ∷ q))) h)

  -- A verified write that succeeds has stored its block on every present device.
  pub write_verified-stores :
      (lba : ℕ) (buf : Block) (m m' : Mirror A B)
      → write_verified ma.dev mb.dev lba buf m ≡ (ok tt, m')
      → Holds lba buf m'
  unfolding write_verified
  write_verified-stores lba buf m m' h =
      let (m1, h1, h2) = >>-eq-ok (drain ma.dev mb.dev) _ m h in
      mirrored-Lands _ _ _ _ (λ d d'. write_one-stores ma lba buf d)
        (λ d d'. write_one-stores mb lba buf d) (forget lba m1) m' h2

  -- Whatever its result, a verified write leaves the front everywhere but at its position and at
  -- those that were staged.
  pub write_verified-front :
      (lba : ℕ) (buf : Block) (j : ℕ) (m : Mirror A B)
      → j ≢ lba
      → last_at j (staged m.pending) ≡ none
      → front ma mb j (write_verified ma.dev mb.dev lba buf m).1 ≡ front ma mb j m
  unfolding write_verified forget
  write_verified-front lba buf j m ne unstaged =
      >>-end (front ma mb j) (drain ma.dev mb.dev) _ m (drain-front j m unstaged) (λ m1.
        mirrored-front ma mb j (write_one ma.dev lba buf) (write_one mb.dev lba buf)
          (write_one-frame ma lba buf j ne) (write_one-frame mb lba buf j ne) (forget lba m1))
