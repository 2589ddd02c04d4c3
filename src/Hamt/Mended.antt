-- ===== src/Hamt/Mended.antt =====
-- src/hamt.rs, `walk_live_repair`: a position is reported once there too.
use manifestus.Base.{
  ℕ, zero, suc, ◌+◌, sym, subst, Option, none, some, List, [], ◌∷◌, ◌++◌, String, replicate,
}
use mathlib.Core.List.{append_assoc}
use manifestus.Error.{Result, Run, ok, err, stuck, ◌>>=◌, ◌>>◌, lift}
use manifestus.Block.{Block, BlockDev}
use manifestus.Mirror.State.{Mirror}
use manifestus.Ring.Codec.{Codec}
use manifestus.Tract
use manifestus.Tract.{Tract}
use manifestus.Hamt.Runs.{expand_runs}
use manifestus.Hamt.Walk.{unvisited, node_at_depth}
use manifestus.Hamt.Leaf.{Child, committed, dirty, furrow_capacity}
use manifestus.Hamt.Doc.{TractDoc, node, lone, extent, direct, furrow}
use manifestus.Hamt.State.{Hamt}
use manifestus.Hamt.Store.{read_doc}
use manifestus.Hamt.Trie.{levels}
use manifestus.Hamt.Scan.{Walk, StalePointer}
use manifestus.Hamt.Visit.{on_reads, report, walk_children}
use manifestus.Hamt.Reported.{is_reported, IsOnce, IsFresh, report-IsOnce}
use manifestus.Hamt.Mend.{
  Mend, DanglingPointer, on_lists, note, dangles, corrupt_reason, read_reason, sound_furrow,
  kept_or_lost, check_furrows_from, repair_check_furrows, repair_extent, repair_here, repair_read,
  walk_child_repair, repair_root, walk_live_repair,
}
use manifestus.Hamt.Mends.{
  with_more, with_more-IsOnce, more-IsOnce, Mends, unless_corrupt-Mends, claim-Mends,
  at_depth-Mends, reads-Mends, lift-Mends, children-Mends, then-Mends,
}

module _ (c : Codec) {A B : Type 0} (devA : BlockDev A) (devB : BlockDev B) (t : Tract) where
  kept-Mends :
      (rest : ℕ × List ℕ → Run (Mend × Mirror A B) (Unit {0}))
      (refuse : String → Run (Mend × Mirror A B) (Unit {0})) (pos : ℕ) (live : List (ℕ × List ℕ))
      (found : Option (List ℕ))
      → ((r : String) → Mends IsOnce (refuse r))
      → ((x : ℕ × List ℕ) → Mends (λ w. IsOnce (with_more (some (live ++ x ∷ [])) w)) (rest x))
      → Mends
          (λ w. IsFresh pos (with_more (some live) w))
          (kept_or_lost c devA devB t rest refuse pos found)
  kept-Mends rest refuse pos live none h k =
      λ w m p. h "furrow lost" w m (with_more-IsOnce (some live) w.walk p.0)
  kept-Mends rest refuse pos live (some hash) h k =
      λ w m p. k (pos, hash) w m (more-IsOnce pos hash live w.walk p)

  check_furrows_from-Mends :
      (key : List ℕ) (leaf : ℕ × List ℕ) (refuse : String → Run (Mend × Mirror A B) (Unit {0}))
      (i : ℕ) (positions : List ℕ) (live : List (ℕ × List ℕ))
      → ((r : String) → Mends IsOnce (refuse r))
      → Mends
          (λ w. IsOnce (with_more (some (leaf ∷ live)) w))
          (check_furrows_from c devA devB t key leaf refuse i positions live)
  unfolding check_furrows_from ◌>>◌
  check_furrows_from-Mends key leaf refuse i [] live h w m p =
      subst (λ xs. IsOnce (record w.walk { out = xs }))
        (sym (append_assoc w.walk.out (leaf ∷ []) live)) p
  check_furrows_from-Mends key leaf refuse i (pos ∷ ps) live h w m p =
      let rest = λ (x : ℕ × List ℕ).
        check_furrows_from c devA devB t key leaf refuse (i + 1) ps (live ++ x ∷ []) in
      let keep = kept_or_lost c devA devB t rest refuse pos in
      let Fresh = λ (w : Walk). IsFresh pos (with_more (some (leaf ∷ live)) w) in
      let once = λ (w : Walk) (q : Fresh w). with_more-IsOnce (some (leaf ∷ live)) w q.0 in
      claim-Mends (some (leaf ∷ live)) pos refuse
        (on_reads (Tract.read devA devB t pos)
          >>= (λ (buf : Block). lift (sound_furrow c key i buf) >>= keep))
        h
        (reads-Mends Fresh (Tract.read devA devB t pos)
          (λ (buf : Block). lift (sound_furrow c key i buf) >>= keep) once
          (λ buf. lift-Mends Fresh (sound_furrow c key i buf) keep once (λ found.
            kept-Mends rest refuse pos (leaf ∷ live) found h
              (λ x. check_furrows_from-Mends key leaf refuse (i + 1) ps (live ++ x ∷ []) h))))
        w m p

  -- A leaf that is reached, with its furrows.
  leaf-Mends :
      (lba : ℕ) (hash route key positions : List ℕ)
      → Mends (IsFresh lba) (repair_check_furrows c devA devB t lba hash route key positions)
  leaf-Mends lba hash route key positions w m p =
      check_furrows_from-Mends key (lba, hash) (dangles lba hash route (some key)) 0 positions []
        (λ r w m p. p) w m (report-IsOnce lba hash w.walk p)

  repair_extent-Mends :
      (lba : ℕ) (hash route key : List ℕ) (r : Result (List ℕ))
      → Mends (IsFresh lba) (repair_extent c devA devB t lba hash route key r)
  repair_extent-Mends lba hash route key (ok positions) = leaf-Mends lba hash route key positions
  repair_extent-Mends lba hash route key (err e) =
      unless_corrupt-Mends (IsFresh lba) (dangles lba hash route (some key)) (lift (err e))
        (corrupt_reason e) (λ r w m p. p.0) (λ w m p. p.0)
  repair_extent-Mends lba hash route key stuck = λ w m p. p.0

  repair_here-Mends :
      (go : ℕ → List ℕ → List ℕ → ℕ → Run (Mend × Mirror A B) (Unit {0}))
      → ((lba : ℕ) (hash route : List ℕ) (depth : ℕ) → Mends IsOnce (go lba hash route depth))
      → (lba : ℕ) (hash route : List ℕ) (depth : ℕ) (doc : TractDoc)
      → Mends (IsFresh lba) (repair_here c devA devB t go lba hash route depth doc)
  unfolding repair_here
  repair_here-Mends go h lba hash route depth (node n) =
      at_depth-Mends (IsFresh lba) (dangles lba hash route none)
        (note (on_lists (report lba hash)) >> walk_children go route depth 0 n.children)
        (node_at_depth n.depth depth) (λ w p. p.0) (λ r w m p. p.0)
        (then-Mends (IsFresh lba) (note (on_lists (report lba hash)))
          (walk_children go route depth 0 n.children) (λ w m p. report-IsOnce lba hash w.walk p)
          (children-Mends go route depth 0 n.children h))
  repair_here-Mends go h lba hash route depth (lone k v) = λ w m p. report-IsOnce lba hash w.walk p
  repair_here-Mends go h lba hash route depth (direct key size furrows) =
      leaf-Mends lba hash route key furrows
  repair_here-Mends go h lba hash route depth (extent key size runs) =
      repair_extent-Mends lba hash route key (expand_runs (furrow_capacity c) runs size t.len)
  repair_here-Mends go h lba hash route depth (furrow k i q) = λ w m p. p.0

  repair_read-Mends :
      (go : ℕ → List ℕ → List ℕ → ℕ → Run (Mend × Mirror A B) (Unit {0}))
      → ((lba : ℕ) (hash route : List ℕ) (depth : ℕ) → Mends IsOnce (go lba hash route depth))
      → (lba : ℕ) (hash route : List ℕ) (depth : ℕ) (w : Mend) → IsOnce w.walk
      → (x : Result (Option TractDoc) × Mirror A B)
      → IsOnce (repair_read c devA devB t go lba hash route depth w x).1.0.walk
  unfolding repair_read
  repair_read-Mends go h lba hash route depth w p (ok none, m) = p
  repair_read-Mends go h lba hash route depth w p (ok (some doc), m) =
      claim-Mends none lba (dangles lba hash route none)
        (repair_here c devA devB t go lba hash route depth doc) (λ r w m p. p)
        (repair_here-Mends go h lba hash route depth doc) w m p
  repair_read-Mends go h lba hash route depth w p (err e, m) =
      unless_corrupt-Mends IsOnce (dangles lba hash route none) (lift (err e)) (read_reason e)
        (λ r w m p. p) (λ w m p. p) w m p
  repair_read-Mends go h lba hash route depth w p (stuck, m) = p

  walk_child_repair-Mends :
      (left lba : ℕ) (hash route : List ℕ) (depth : ℕ)
      → Mends IsOnce (walk_child_repair c devA devB t left lba hash route depth)
  unfolding walk_child_repair
  walk_child_repair-Mends zero lba hash route depth w m p = p
  walk_child_repair-Mends (suc left) lba hash route depth w m p =
      repair_read-Mends (walk_child_repair c devA devB t left) (walk_child_repair-Mends left) lba
        hash route depth w p (read_doc c devA devB t lba hash m)

  -- The repair walk from the committed root with an empty list, whatever its result: no position
  -- stands twice in the list, and every position of the list is marked as reached.
  pub walk_live_repair-IsOnce :
      (h : Hamt) (stale : List StalePointer) (dangling : List DanglingPointer) (m : Mirror A B)
      → IsOnce (walk_live_repair c devA devB t h [] stale dangling m).1.0.walk
  unfolding walk_live_repair repair_root is_reported
  walk_live_repair-IsOnce h stale dangling m = go h.root
    where
      lists : Walk
      lists = record {
        todo = [];
        visited = unvisited t.len;
        out = [];
        referenced = [];
        stale = stale;
      }

      start : Mend
      start = record { walk = lists; dangling = dangling }

      nothing : IsOnce lists
      nothing = (tt, λ p e. cc e)

      go : (root : Option Child) → IsOnce (repair_root c devA devB t (start, m) root).1.0.walk
      go none = nothing
      go (some (dirty i)) = nothing
      go (some (committed hash lba)) =
          walk_child_repair-Mends levels lba hash (replicate 32 0) 0 start m nothing
