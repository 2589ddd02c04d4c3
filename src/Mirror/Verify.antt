-- ===== src/Mirror/Verify.antt =====
-- src/mirror.rs, `write_one`: what a verified write of one block stores, and what it leaves.
use manifestus.Base.{
  ℕ, zero, suc, ◌≡◌, ◌≢◌, ◌∙◌, refl, sym, subst, inl, inr, bytes_eq, eq_of_bytes_eq, if◌then◌else◌,
  Bool-cases,
}
use manifestus.Error.{
  Run, Result, ok, pure, >>=-eq-ok, >>-eq-ok, Keeps, >>=-Keeps, >>-Keeps, if-Keeps,
}
use manifestus.Block.{Block}
use manifestus.Media.{Medium, Answers}
use manifestus.Mirror.Device.{write_attempts, write_one}

module _ {D : Type 0} (m : Medium D) where
  open m use {dev, view}

  -- A successful read answers what the medium holds, before and after.
  pub read-view :
      (lba : ℕ) (d : D) {b : Block} {d' : D}
      → dev.read lba d ≡ (ok b, d')
      → (view d lba ≡ b) × ((j : ℕ) → view d' j ≡ view d j)
  read-view lba d {b} {d'} e =
      let answered : Answers (ok b) (view d lba) =
        subst (λ (x : Result Block × D). Answers x.0 (view d lba)) e (m.read_answers lba d) in
      (
        sym answered,
        λ j. subst (λ (x : Result Block × D). view x.1 j ≡ view d j) e (m.read_keeps lba d j),
      )

  -- Whatever its result, a write of one block leaves every other address.
  pub write_attempts-frame :
      (n lba : ℕ) (buf : Block) (j : ℕ)
      → j ≢ lba
      → Keeps (λ d. view d j) (write_attempts dev n lba buf)
  unfolding write_attempts
  write_attempts-frame zero lba buf j ne = λ d. refl
  write_attempts-frame (suc n) lba buf j ne =
      >>-Keeps _ _ _ (λ d. m.write_frame lba buf d j ne)
        (>>-Keeps _ _ _ (λ d. m.flush_keeps d j)
          (>>=-Keeps _ _ _ (λ d. m.read_keeps lba d j)
            (λ got.
              if-Keeps _ (bytes_eq got buf) _ _ (λ d. refl) (write_attempts-frame n lba buf j ne))))

  compared :
      (lba : ℕ) (got buf : Block) (retry : Run D (Unit {0})) (d : D) {d' : D}
      → view d lba ≡ got
      → ((e e' : D) → retry e ≡ (ok tt, e') → view e' lba ≡ buf)
      → (if bytes_eq got buf then pure tt else retry) d ≡ (ok tt, d')
      → view d' lba ≡ buf
  compared lba got buf retry d held again h = elim (Bool-cases (bytes_eq got buf)) [
    | inl same ↦ cc (held, eq_of_bytes_eq got buf same, rw same at h)
    | inr differ ↦ again d _ (rw differ at h)
  ]

  pub write_attempts-stores :
      (n lba : ℕ) (buf : Block) (d : D) {d' : D}
      → write_attempts dev n lba buf d ≡ (ok tt, d')
      → view d' lba ≡ buf
  unfolding write_attempts
  write_attempts-stores zero lba buf d h = absurd (cc h)
  write_attempts-stores (suc n) lba buf d h =
      let (d1, w, h1) = >>-eq-ok (dev.write lba buf) _ d h in
      let (d2, f, h2) = >>-eq-ok dev.flush _ d1 h1 in
      let (got, d3, r, h3) = >>=-eq-ok (dev.read lba) _ d2 h2 in
      let (seen, kept) = read-view lba d2 r in
      compared lba got buf _ d3 (kept lba ∙ seen) (λ e e'. write_attempts-stores n lba buf e) h3

  pub write_one-frame :
      (lba : ℕ) (buf : Block) (j : ℕ) → j ≢ lba → Keeps (λ d. view d j) (write_one dev lba buf)
  unfolding write_one
  write_one-frame lba buf j ne = write_attempts-frame 2 lba buf j ne

  -- A write of one block that succeeds has stored it, on a device that may lose or tear any write:
  -- an unverified byte is not a written byte.
  pub write_one-stores :
      (lba : ℕ) (buf : Block) (d : D) {d' : D}
      → write_one dev lba buf d ≡ (ok tt, d')
      → view d' lba ≡ buf
  unfolding write_one
  write_one-stores lba buf d h = write_attempts-stores 2 lba buf d h
