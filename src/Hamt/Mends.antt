-- ===== src/Hamt/Mends.antt =====
-- src/hamt.rs: the steps of the repair walk report no position twice.
use manifestus.Base.{
  ℕ, ◌+◌, ◌/◌, ◌^◌, ◌≡◌, sym, subst, ◌⊎◌, inl, inr, Bool, true, false, not, Option, none, some,
  List, [], ◌∷◌, ◌++◌, String, ltb, if◌then◌else◌, Bool-cases,
}
use mathlib.Core.List.{append_assoc}
use manifestus.Error.{Result, Run, ok, err, stuck, corrupt, continue, ◌>>=◌, ◌>>◌, lift}
use manifestus.Hamt.Walk.{reach, is_reached, route_with_chunk}
use manifestus.Hamt.Leaf.{Child, committed, dirty}
use manifestus.Hamt.Scan.{Walk}
use manifestus.Hamt.Visit.{on_reads, behind, walk_children}
use manifestus.Hamt.Reported.{
  IsOnce, IsFresh, report-IsOnce, reached-IsFresh, reported_before, AreDistinct-before,
}
use manifestus.Hamt.Mend.{
  Mend, on_lists, put_visited, unless_corrupt, corrupt_reason, claimed_as, claim, at_depth,
}

-- The list with the sound blocks of a leaf that are not reported yet.
abbrev pub with_more : Option (List (ℕ × List ℕ)) → Walk → Walk
with_more none w = w
with_more (some live) w = record w { out = w.out ++ live }

pub with_more-IsOnce :
    (o : Option (List (ℕ × List ℕ))) (w : Walk) → IsOnce (with_more o w) → IsOnce w
with_more-IsOnce none w h = h
with_more-IsOnce (some live) w (d, k) =
    (AreDistinct-before w.out live d, λ p e. k p (reported_before p w.out live e))

seen-IsFresh :
    (o : Option (List (ℕ × List ℕ))) (lba : ℕ) (w : Walk)
    → IsOnce (with_more o w)
    → is_reached lba w.visited.reached ≡ false
    → IsFresh lba
        (with_more o (put_visited (record w.visited { reached = lba ∷ w.visited.reached }) w))
seen-IsFresh none lba w h n = reached-IsFresh lba w h n
seen-IsFresh (some live) lba w h n = reached-IsFresh lba (with_more (some live) w) h n

-- The pending blocks with one more are as sound as the report of it.
pub more-IsOnce :
    (pos : ℕ) (hash : List ℕ) (live : List (ℕ × List ℕ)) (w : Walk)
    → IsFresh pos (with_more (some live) w)
    → IsOnce (with_more (some (live ++ (pos, hash) ∷ [])) w)
more-IsOnce pos hash live w f =
    subst (λ xs. IsOnce (record w { out = xs })) (append_assoc w.out live ((pos, hash) ∷ []))
      (report-IsOnce pos hash (with_more (some live) w) f)

module _ {M : Type 0} where
  -- A run that reports no position twice from walks with `P`, whatever its result.
  abbrev pub Mends : (Walk → Type 0) → Run (Mend × M) (Unit {0}) → Type 0
  Mends P run = (w : Mend) (m : M) → P w.walk → IsOnce (run (w, m)).1.0.walk

  pub unless_corrupt-Mends :
      (P : Walk → Type 0) (refuse : String → Run (Mend × M) (Unit {0}))
      (next : Run (Mend × M) (Unit {0})) (o : Option String)
      → ((r : String) → Mends P (refuse r))
      → Mends P next
      → Mends P (unless_corrupt refuse next o)
  unless_corrupt-Mends P refuse next none h k = k
  unless_corrupt-Mends P refuse next (some r) h k = h r

  pub claim-Mends :
      (o : Option (List (ℕ × List ℕ))) (lba : ℕ) (refuse : String → Run (Mend × M) (Unit {0}))
      (next : Run (Mend × M) (Unit {0}))
      → ((r : String) → Mends IsOnce (refuse r))
      → Mends (λ w. IsFresh lba (with_more o w)) next
      → Mends (λ w. IsOnce (with_more o w)) (claim lba refuse next)
  unfolding claim reach
  claim-Mends o lba refuse next h k w m p =
      go (not (ltb (lba / 2 ^ 6) w.walk.visited.words))
        (Bool-cases (is_reached lba w.walk.visited.reached))
    where
      after : Bool → Bool → Result (Unit {0}) × (Mend × M)
      after far again =
          claimed_as refuse next
            (if far
              then stuck
              else if again
              then err (corrupt "tract lba reached twice")
              else ok (record w.walk.visited { reached = lba ∷ w.walk.visited.reached }))
            (w, m)

      once : IsOnce w.walk
      once = with_more-IsOnce o w.walk p

      go :
          (far : Bool)
          → (is_reached lba w.walk.visited.reached ≡ true)
            ⊎ (is_reached lba w.walk.visited.reached ≡ false)
          → IsOnce (after far (is_reached lba w.walk.visited.reached)).1.0.walk
      go true e = once
      go false (inl e) =
          subst (λ b. IsOnce (after false b).1.0.walk) (sym e)
            (h "tract lba reached twice" w m once)
      go false (inr e) =
          subst (λ b. IsOnce (after false b).1.0.walk) (sym e)
            (k
              (on_lists
                (put_visited (record w.walk.visited { reached = lba ∷ w.walk.visited.reached })) w)
              m (seen-IsFresh o lba w.walk p e))

  pub at_depth-Mends :
      (P : Walk → Type 0) (refuse : String → Run (Mend × M) (Unit {0}))
      (next : Run (Mend × M) (Unit {0})) (r : Result (Unit {0}))
      → ((w : Walk) → P w → IsOnce w)
      → ((r : String) → Mends P (refuse r))
      → Mends P next
      → Mends P (at_depth refuse next r)
  at_depth-Mends P refuse next (ok u) f h k = k
  at_depth-Mends P refuse next (err e) f h k =
      unless_corrupt-Mends P refuse next (corrupt_reason e) h k
  at_depth-Mends P refuse next stuck f h k = λ w m p. f w.walk p

  -- A step whose result goes on, where the lists are kept.
  after-Mends :
      {X : Type 0} (P : Walk → Type 0) (f : X → Run (Mend × M) (Unit {0})) (w : Mend)
      (x : Result X × M)
      → IsOnce w.walk
      → P w.walk
      → ((a : X) → Mends P (f a))
      → IsOnce (continue f (behind w x)).1.0.walk
  after-Mends P f w (ok a, m) once p k = k a w m p
  after-Mends P f w (err e, m) once p k = once
  after-Mends P f w (stuck, m) once p k = once

  pub reads-Mends :
      {X : Type 0} (P : Walk → Type 0) (run : Run M X) (f : X → Run (Mend × M) (Unit {0}))
      → ((w : Walk) → P w → IsOnce w)
      → ((a : X) → Mends P (f a))
      → Mends P (on_reads run >>= f)
  unfolding ◌>>=◌
  reads-Mends P run f h k w m p = after-Mends P f w (run m) (h w.walk p) p k

  pub lift-Mends :
      {X : Type 0} (P : Walk → Type 0) (r : Result X) (f : X → Run (Mend × M) (Unit {0}))
      → ((w : Walk) → P w → IsOnce w)
      → ((a : X) → Mends P (f a))
      → Mends P (lift r >>= f)
  unfolding ◌>>=◌
  lift-Mends P r f h k w m p = after-Mends P f w (r, m) (h w.walk p) p k

  pub then-Mends :
      (P : Walk → Type 0) (run next : Run (Mend × M) (Unit {0}))
      → Mends P run
      → Mends IsOnce next
      → Mends P (run >> next)
  unfolding ◌>>◌
  then-Mends P run next h k w m p = go (run (w, m)) (h w m p)
    where
      go :
          (x : Result (Unit {0}) × (Mend × M))
          → IsOnce x.1.0.walk
          → IsOnce (continue (λ _. next) x).1.0.walk
      go (ok a, (v, n)) e = k v n e
      go (err e', (v, n)) e = e
      go (stuck, (v, n)) e = e

  pub children-Mends :
      (go : ℕ → List ℕ → List ℕ → ℕ → Run (Mend × M) (Unit {0})) (route : List ℕ) (depth s : ℕ)
      (cs : List (Option Child))
      → ((lba : ℕ) (hash route : List ℕ) (depth : ℕ) → Mends IsOnce (go lba hash route depth))
      → Mends IsOnce (walk_children go route depth s cs)
  unfolding walk_children
  children-Mends go route depth s [] h w m p = p
  children-Mends go route depth s (none ∷ cs) h w m p =
      children-Mends go route depth (s + 1) cs h w m p
  children-Mends go route depth s (some (dirty i) ∷ cs) h w m p =
      children-Mends go route depth (s + 1) cs h w m p
  children-Mends go route depth s (some (committed hash lba) ∷ cs) h w m p =
      then-Mends IsOnce (go lba hash (route_with_chunk route depth s) (depth + 1))
        (walk_children go route depth (s + 1) cs)
        (h lba hash (route_with_chunk route depth s) (depth + 1))
        (children-Mends go route depth (s + 1) cs h) w m p
