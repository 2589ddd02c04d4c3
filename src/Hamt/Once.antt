-- ===== src/Hamt/Once.antt =====
-- src/hamt.rs, `walk_live_collect`: a position is reported once.
use manifestus.Base.{
  ℕ, zero, suc, ◌+◌, ◌≡◌, sym, Bool, true, false, not, Option, none, some, List, [], ◌∷◌, ltb,
  if◌then◌else◌, Bool-cases, ◌⊎◌, inl, inr, subst, ◌/◌, ◌^◌, replicate,
}
use manifestus.Error.{Result, Run, ok, err, stuck, corrupt, continue, ◌>>=◌, ◌>>◌, lift}
use manifestus.Block.{Block, BlockDev}
use manifestus.Mirror.State.{Mirror}
use manifestus.Ring.Codec.{Codec}
use manifestus.Ring.Document.{sealed_hp}
use manifestus.Tract
use manifestus.Tract.{Tract}
use manifestus.Hamt.Runs.{expand_runs}
use manifestus.Hamt.Walk.{reach, is_reached, unvisited, node_at_depth, route_with_chunk}
use manifestus.Hamt.Leaf.{Child, committed, dirty, furrow_capacity}
use manifestus.Hamt.Doc.{TractDoc, node, lone, extent, direct, furrow}
use manifestus.Hamt.State.{Hamt}
use manifestus.Hamt.Store.{read_doc}
use manifestus.Hamt.Trie.{levels}
use manifestus.Hamt.Scan.{Walk, StalePointer, add, mark, reached_or}
use manifestus.Hamt.Visit.{
  next_to, behind, on_walk, on_reads, report, report_sealed, walk_children, walk_furrows,
  walk_below, walk_here, walk_child, walk_root, walk_live_collect,
}
use manifestus.Hamt.Reported.{is_reported, IsOnce, IsFresh, report-IsOnce, reached-IsFresh}

module _ {M : Type 0} where
  -- What holds when a run has ended: `Q` after a success, a walk that reported nothing twice otherwise.
  abbrev Ends : {X : Type 0} → (Walk → Type 0) → Result X × (Walk × M) → Type 0
  Ends Q (ok a, (w, m)) = Q w
  Ends Q (err e, (w, m)) = IsOnce w
  Ends Q (stuck, (w, m)) = IsOnce w

  abbrev Does : {X : Type 0} → (Walk → Type 0) → Run (Walk × M) X → (Walk → Type 0) → Type 0
  Does P run Q = (w : Walk) (m : M) → P w → Ends Q (run (w, m))

  after :
      {X Y : Type 0} (Q T : Walk → Type 0) (f : X → Run (Walk × M) Y) (x : Result X × (Walk × M))
      → Ends Q x
      → ((a : X) → Does Q (f a) T)
      → Ends T (continue f x)
  after Q T f (ok a, (w, m)) h k = k a w m h
  after Q T f (err e, (w, m)) h k = h
  after Q T f (stuck, (w, m)) h k = h

  >>=-Does :
      {X Y : Type 0} (P Q T : Walk → Type 0) (run : Run (Walk × M) X) (f : X → Run (Walk × M) Y)
      → Does P run Q
      → ((a : X) → Does Q (f a) T)
      → Does P (run >>= f) T
  unfolding ◌>>=◌
  >>=-Does P Q T run f h k w m p = after Q T f (run (w, m)) (h w m p) k

  >>-Does :
      {Y : Type 0} (P Q T : Walk → Type 0) (run : Run (Walk × M) (Unit {0}))
      (next : Run (Walk × M) Y)
      → Does P run Q
      → Does Q next T
      → Does P (run >> next) T
  unfolding ◌>>◌
  >>-Does P Q T run next h k w m p = after Q T (λ _. next) (run (w, m)) (h w m p) (λ _. k)

  -- A read below the walk.
  on_reads-Does :
      {X : Type 0} (f : Run M X) (P : Walk → Type 0)
      → ((w : Walk) → P w → IsOnce w)
      → Does P (on_reads f) P
  on_reads-Does f P h w m p = go (f m)
    where
      go : {X : Type 0} (x : Result X × M) → Ends P (behind w x)
      go (ok a, m') = p
      go (err e, m') = h w p
      go (stuck, m') = h w p

  lift-Does : {X : Type 0} (r : Result X) → Does IsOnce (lift r) IsOnce
  lift-Does (ok a) w m p = p
  lift-Does (err e) w m p = p
  lift-Does stuck w m p = p

  mark-Does : (lba : ℕ) → Does IsOnce (on_walk (mark lba)) (IsFresh lba)
  unfolding mark reach
  mark-Does lba w m p =
      go (not (ltb (lba / 2 ^ 6) w.visited.words)) (Bool-cases (is_reached lba w.visited.reached))
    where
      marked : Bool → Bool → Result (Unit {0}) × (Walk × M)
      marked far again = next_to m (
          reached_or w (
            if far
            then stuck
            else if again
            then err (corrupt "tract lba reached twice")
            else ok (record w.visited { reached = lba ∷ w.visited.reached })))

      go :
          (far : Bool)
          → (is_reached lba w.visited.reached ≡ true) ⊎ (is_reached lba w.visited.reached ≡ false)
          → Ends (IsFresh lba) (marked far (is_reached lba w.visited.reached))
      go true e = p
      go false (inl e) = subst (λ b. Ends (IsFresh lba) (marked false b)) (sym e) p
      go false (inr e) =
          subst (λ b. Ends (IsFresh lba) (marked false b)) (sym e) (reached-IsFresh lba w p e)

  report_sealed-Does :
      (lba : ℕ) (o : Option (List ℕ)) → Does (IsFresh lba) (report_sealed lba o) IsOnce
  report_sealed-Does lba none w m p = p.0
  report_sealed-Does lba (some hash) w m p = report-IsOnce lba hash w p

  -- The children of a node, when the walk of each child is right.
  walk_children-Does :
      (go : ℕ → List ℕ → List ℕ → ℕ → Run (Walk × M) (Unit {0})) (route : List ℕ) (depth s : ℕ)
      (cs : List (Option Child))
      → ((lba : ℕ) (hash route : List ℕ) (depth : ℕ) → Does IsOnce (go lba hash route depth) IsOnce)
      → Does IsOnce (walk_children go route depth s cs) IsOnce
  unfolding walk_children
  walk_children-Does go route depth s [] h w m p = p
  walk_children-Does go route depth s (none ∷ cs) h w m p =
      walk_children-Does go route depth (s + 1) cs h w m p
  walk_children-Does go route depth s (some (dirty i) ∷ cs) h w m p =
      walk_children-Does go route depth (s + 1) cs h w m p
  walk_children-Does go route depth s (some (committed hash lba) ∷ cs) h w m p =
      >>-Does IsOnce IsOnce IsOnce (go lba hash (route_with_chunk route depth s) (depth + 1))
        (walk_children go route depth (s + 1) cs)
        (h lba hash (route_with_chunk route depth s) (depth + 1))
        (walk_children-Does go route depth (s + 1) cs h) w m p

module _ (c : Codec) {A B : Type 0} (devA : BlockDev A) (devB : BlockDev B) (t : Tract) where
  walk_furrows-Does : (fs : List ℕ) → Does IsOnce (walk_furrows c devA devB t fs) IsOnce
  unfolding walk_furrows
  walk_furrows-Does [] w m p = p
  walk_furrows-Does (f ∷ fs) w m p =
      let rest = walk_furrows c devA devB t fs in
      let seal = λ (buf : Block). report_sealed f (sealed_hp c buf) >> rest in
      >>-Does IsOnce (IsFresh f) IsOnce (on_walk (mark f))
        (on_reads (Tract.read devA devB t f) >>= seal) (mark-Does f)
        (>>=-Does (IsFresh f) (IsFresh f) IsOnce (on_reads (Tract.read devA devB t f)) seal
          (on_reads-Does (Tract.read devA devB t f) (IsFresh f) (λ w p. p.0))
          (λ buf.
            >>-Does (IsFresh f) IsOnce IsOnce (report_sealed f (sealed_hp c buf)) rest
              (report_sealed-Does f (sealed_hp c buf)) (walk_furrows-Does fs)))
        w m p

  walk_below-Does :
      (go : ℕ → List ℕ → List ℕ → ℕ → Run (Walk × Mirror A B) (Unit {0}))
      → ((lba : ℕ) (hash route : List ℕ) (depth : ℕ) → Does IsOnce (go lba hash route depth) IsOnce)
      → (route : List ℕ) (depth : ℕ) (doc : TractDoc)
      → Does IsOnce (walk_below c devA devB t go route depth doc) IsOnce
  unfolding walk_below
  walk_below-Does go h route depth (node n) =
      >>-Does IsOnce IsOnce IsOnce (lift (node_at_depth n.depth depth))
        (walk_children go route depth 0 n.children) (lift-Does (node_at_depth n.depth depth))
        (walk_children-Does go route depth 0 n.children h)
  walk_below-Does go h route depth (direct k s furrows) = walk_furrows-Does furrows
  walk_below-Does go h route depth (extent k size runs) =
      let positions = expand_runs (furrow_capacity c) runs size t.len in
      >>=-Does IsOnce IsOnce IsOnce (lift positions) (walk_furrows c devA devB t)
        (lift-Does positions) walk_furrows-Does
  walk_below-Does go h route depth (lone k v) = λ w m p. p
  walk_below-Does go h route depth (furrow k i q) = λ w m p. p

  walk_here-Does :
      (go : ℕ → List ℕ → List ℕ → ℕ → Run (Walk × Mirror A B) (Unit {0}))
      → ((lba : ℕ) (hash route : List ℕ) (depth : ℕ) → Does IsOnce (go lba hash route depth) IsOnce)
      → (lba : ℕ) (hash route : List ℕ) (depth : ℕ) (doc : Option TractDoc)
      → Does (IsFresh lba) (walk_here c devA devB t go lba hash route depth doc) IsOnce
  unfolding walk_here
  walk_here-Does go h lba hash route depth none = λ w m p. p.0
  walk_here-Does go h lba hash route depth (some doc) =
      >>-Does (IsFresh lba) IsOnce IsOnce (on_walk (add (report lba hash)))
        (walk_below c devA devB t go route depth doc) (λ w m p. report-IsOnce lba hash w p)
        (walk_below-Does go h route depth doc)

  walk_child-Does :
      (left lba : ℕ) (hash route : List ℕ) (depth : ℕ)
      → Does IsOnce (walk_child c devA devB t left lba hash route depth) IsOnce
  unfolding walk_child
  walk_child-Does zero lba hash route depth w m p = p
  walk_child-Does (suc left) lba hash route depth w m p =
      let go = walk_child c devA devB t left in
      let reads = on_reads (read_doc c devA devB t lba hash) in
      let found = λ (doc : Option TractDoc).
        on_walk (mark lba) >> walk_here c devA devB t go lba hash route depth doc in
      >>=-Does IsOnce IsOnce IsOnce reads found
        (on_reads-Does (read_doc c devA devB t lba hash) IsOnce (λ w p. p))
        (λ doc.
          >>-Does IsOnce (IsFresh lba) IsOnce (on_walk (mark lba))
            (walk_here c devA devB t go lba hash route depth doc) (mark-Does lba)
            (walk_here-Does go (walk_child-Does left) lba hash route depth doc))
        w m p

ends-IsOnce : {X M : Type 0} (x : Result X × (Walk × M)) → Ends IsOnce x → IsOnce x.1.0
ends-IsOnce (ok a, (w, m)) h = h
ends-IsOnce (err e, (w, m)) h = h
ends-IsOnce (stuck, (w, m)) h = h

module _ (c : Codec) {A B : Type 0} (devA : BlockDev A) (devB : BlockDev B) (t : Tract) where
  -- The walk from the committed root with an empty list, whatever its result: no position stands
  -- twice in the list, and every position of the list is marked as reached.
  pub walk_live_collect-IsOnce :
      (h : Hamt) (stale : List StalePointer) (m : Mirror A B)
      → IsOnce (walk_live_collect c devA devB t h [] stale m).1.0
  unfolding walk_live_collect is_reported walk_root
  walk_live_collect-IsOnce h stale m = go h.root
    where
      start : Walk
      start = record {
        todo = [];
        visited = unvisited t.len;
        out = [];
        referenced = [];
        stale = stale;
      }

      nothing : IsOnce start
      nothing = (tt, λ p e. cc e)

      go : (root : Option Child) → IsOnce (walk_root c devA devB t (start, m) root).1.0
      go none = nothing
      go (some (dirty i)) = nothing
      go (some (committed hash lba)) =
          ends-IsOnce (walk_child c devA devB t levels lba hash (replicate 32 0) 0 (start, m))
            (walk_child-Does c devA devB t levels lba hash (replicate 32 0) 0 start m nothing)
