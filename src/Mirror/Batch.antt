-- ===== src/Mirror/Batch.antt =====
-- src/mirror.rs, `write_each`: a batch of blocks on one device, written as runs, flushed once and
-- read back.
use manifestus.Base.{
  ℕ, zero, suc, ◌+◌, ◌<◌, ◌≤◌, ◌≡◌, ◌≢◌, refl, sym, subst, ◌∙◌, List, [], ◌∷◌, map, length,
  bytes_eq, eq_of_bytes_eq, Bool-cases, inl, inr, arith,
}
use manifestus.Error.{
  Result, ok, >>=-eq-ok, >>-eq-ok, Keeps, Keeps-end, >>=-Keeps, >>-Keeps, if-Keeps,
}
use manifestus.Block.{Block}
use manifestus.Media.{Medium, Answers, run_at}
use manifestus.Mirror.Device.{
  Placed, block_of, runs_of, run_start, write_runs, check_one, check_run, verify_runs, write_each,
}
use manifestus.Mirror.Placed.{
  Stored, Avoids, Above, Chained, AreRuns, joined, joined-runs_of, runs_of-AreRuns, Chained-Outside,
  Avoids-append, Above-Avoids, Above-weaken, run-Above, Stored-chain, Stored-append,
}
use manifestus.Mirror.Verify.{write_one-frame, write_one-stores}

list_head : {x y : Block} {xs ys : List Block} → x ∷ xs ≡ y ∷ ys → x ≡ y
list_head e = cc

list_tail : {x y : Block} {xs ys : List Block} → x ∷ xs ≡ y ∷ ys → xs ≡ ys
list_tail e = cc

Chained-Above : (s : ℕ) (ps : List Placed) → Chained s ps → Above s ps
Chained-Above s [] c = tt
Chained-Above s (p ∷ ps) c =
    (omega arith, Above-weaken (s + 1) (suc p.0) ps (omega arith) (Chained-Above (s + 1) ps c.1))

module _ {D : Type 0} (m : Medium D) where
  open m use {dev, view}

  write_runs-frame :
      (rs : List (List Placed)) (j : ℕ)
      → AreRuns rs
      → Avoids j (joined rs)
      → Keeps (λ d. view d j) (write_runs dev rs)
  unfolding write_runs
  write_runs-frame [] j h a = λ d. refl
  write_runs-frame (r ∷ rs) j h a =
      let (here, later) = Avoids-append j r (joined rs) a in
      >>-Keeps _ _ _
        (λ d.
          m.write_run_frame (run_start r) (map block_of r) d j
            (Chained-Outside (run_start r) r j h.0 here))
        (write_runs-frame rs j h.1 later)

  check_one-frame :
      (p : Placed) (got : Block) (j : ℕ) → j ≢ p.0 → Keeps (λ d. view d j) (check_one dev p got)
  unfolding check_one
  check_one-frame p got j ne =
      if-Keeps _ (bytes_eq got p.1) _ _ (λ d. refl) (write_one-frame m p.0 p.1 j ne)

  check_run-frame :
      (r : List Placed) (back : List Block) (j : ℕ)
      → Avoids j r
      → Keeps (λ d. view d j) (check_run dev r back)
  unfolding check_run
  check_run-frame [] back j a = λ d. refl
  check_run-frame (p ∷ r) [] j a = λ d. refl
  check_run-frame (p ∷ r) (got ∷ back) j a =
      >>-Keeps _ _ _ (check_one-frame p got j a.0) (check_run-frame r back j a.1)

  verify_runs-frame :
      (rs : List (List Placed)) (j : ℕ)
      → Avoids j (joined rs)
      → Keeps (λ d. view d j) (verify_runs dev rs)
  unfolding verify_runs
  verify_runs-frame [] j a = λ d. refl
  verify_runs-frame (r ∷ rs) j a =
      let (here, later) = Avoids-append j r (joined rs) a in
      >>=-Keeps _ _ _ (λ d. m.read_run_keeps (run_start r) (length r) d j)
        (λ back. >>-Keeps _ _ _ (check_run-frame r back j here) (verify_runs-frame rs j later))

  -- Whatever its result, a batch leaves every address that is not in it.
  pub write_each-frame :
      (ps : List Placed) (j : ℕ) → Avoids j ps → Keeps (λ d. view d j) (write_each dev ps)
  unfolding write_each
  write_each-frame ps j a =
      let a' : Avoids j (joined (runs_of ps)) = rw (joined-runs_of ps) a in
      >>-Keeps _ _ _ (write_runs-frame (runs_of ps) j (runs_of-AreRuns ps) a')
        (>>-Keeps _ _ _ (λ d. m.flush_keeps d j) (verify_runs-frame (runs_of ps) j a'))

  check_one-stores :
      (p : Placed) (got : Block) (d : D) {d' : D}
      → view d p.0 ≡ got
      → check_one dev p got d ≡ (ok tt, d')
      → view d' p.0 ≡ p.1
  unfolding check_one
  check_one-stores p got d held h = elim (Bool-cases (bytes_eq got p.1)) [
    | inl same ↦ cc (held, eq_of_bytes_eq got p.1 same, rw same at h)
    | inr differ ↦ write_one-stores m p.0 p.1 d (rw differ at h)
  ]

  run_at-same :
      (f g : ℕ → Block) (s n : ℕ) → ((j : ℕ) → s ≤ j → g j ≡ f j) → run_at g s n ≡ run_at f s n
  run_at-same f g s zero same = refl
  run_at-same f g s (suc n) same =
      cc (same s (omega arith), run_at-same f g (s + 1) n (λ j h. same j (omega arith)))

  -- A run read back whole and checked block by block is stored.
  check_run-stores :
      (s : ℕ) (r : List Placed) (back : List Block) (d : D) {d' : D}
      → Chained s r
      → back ≡ run_at (view d) s (length r)
      → check_run dev r back d ≡ (ok tt, d')
      → Stored (view d') r
  unfolding check_run
  check_run-stores s [] back d c e h = tt
  check_run-stores s (p ∷ r) [] d c e h = absurd (cc)
  check_run-stores s (p ∷ r) (got ∷ back) d {d'} c e h =
      let (d1, h1, h2) = >>-eq-ok (check_one dev p got) _ d h in
      let first : view d1 p.0 ≡ p.1 = check_one-stores p got d (rw c.0 (sym (list_head e))) h1 in
      let same : (j : ℕ) → s + 1 ≤ j → view d1 j ≡ view d j = λ j lt.
        Keeps-end (λ x. view x j) (check_one dev p got) d
          (check_one-frame p got j (omega (arith, c.0))) h1 in
      let rest : Stored (view d') r =
        check_run-stores (s + 1) r back d1 c.1
          (list_tail e ∙ sym (run_at-same (view d) (view d1) (s + 1) (length r) same)) h2 in
      let kept : view d' p.0 ≡ view d1 p.0 =
        Keeps-end (λ x. view x p.0) (check_run dev r back) d1
          (check_run-frame r back p.0
            (Above-Avoids (s + 1) p.0 r (Chained-Above (s + 1) r c.1) (omega (arith, c.0))))
          h2 in
      (kept ∙ first, rest)

  verify_runs-stores :
      (lo : ℕ) (rs : List (List Placed)) (d : D) {d' : D}
      → AreRuns rs
      → Above lo (joined rs)
      → verify_runs dev rs d ≡ (ok tt, d')
      → Stored (view d') (joined rs)
  unfolding verify_runs
  verify_runs-stores lo [] d c a h = tt
  verify_runs-stores lo (r ∷ rs) d {d'} c a h =
      let s = run_start r in
      let (back, d1, h1, h2) = >>=-eq-ok (dev.read_run s (length r)) _ d h in
      let (d2, h3, h4) = >>-eq-ok (check_run dev r back) _ d1 h2 in
      let answered : Answers (ok back) (run_at (view d) s (length r)) =
        subst (λ (x : Result (List Block) × D). Answers x.0 (run_at (view d) s (length r))) h1
          (m.read_run_answers s (length r) d) in
      let same : (j : ℕ) → s ≤ j → view d1 j ≡ view d j = λ j lt.
        Keeps-end (λ x. view x j) (dev.read_run s (length r)) d
          (λ x. m.read_run_keeps s (length r) x j) h1 in
      let stored : Stored (view d2) r =
        check_run-stores s r back d1 c.0
          (answered ∙ sym (run_at-same (view d) (view d1) s (length r) same)) h3 in
      let beyond = run-Above lo r (joined rs) c.0 a in
      let rest : Stored (view d') (joined rs) =
        verify_runs-stores (s + length r) rs d2 c.1 beyond h4 in
      let kept : (j : ℕ) → j < s + length r → view d' j ≡ view d2 j = λ j lt.
        Keeps-end (λ x. view x j) (verify_runs dev rs) d2
          (verify_runs-frame rs j (Above-Avoids (s + length r) j (joined rs) beyond lt)) h4 in
      Stored-append (view d') r (joined rs) (Stored-chain s r (view d2) (view d') c.0 kept stored)
        rest

  -- A batch at increasing positions that succeeds is stored, block for block.
  pub write_each-stores :
      (lo : ℕ) (ps : List Placed) (d : D) {d' : D}
      → Above lo ps
      → write_each dev ps d ≡ (ok tt, d')
      → Stored (view d') ps
  unfolding write_each
  write_each-stores lo ps d {d'} a h =
      let (d1, h1, h2) = >>-eq-ok (write_runs dev (runs_of ps)) _ d h in
      let (d2, h3, h4) = >>-eq-ok dev.flush _ d1 h2 in
      subst (λ (qs : List Placed). Stored (view d') qs) (joined-runs_of ps)
        (verify_runs-stores lo (runs_of ps) d2 (runs_of-AreRuns ps) (rw (joined-runs_of ps) a) h4)
