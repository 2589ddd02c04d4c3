-- ===== src/Hamt/Mend.antt =====
-- src/hamt.rs, `walk_live_repair`: the walk that goes on past dangling pointers and lists them.
use manifestus.Base.{
  String, ℕ, zero, suc, ◌+◌, ◌&&◌, Option, none, some, List, [], ◌∷◌, ◌++◌, replicate, bytes_eq,
  ◌==◌, if◌then◌else◌,
}
use manifestus.Error.{Error, seal, corrupt, Result, Run, ok, err, stuck, ◌>>=◌, ◌>>◌, lift}
use manifestus.Block.{Block, BlockDev}
use manifestus.Mirror.State.{Mirror}
use manifestus.Ring.Codec.{Codec}
use manifestus.Ring.Document.{sealed_hp}
use manifestus.Tract
use manifestus.Tract.{Tract}
use manifestus.Hamt.Runs.{expand_runs}
use manifestus.Hamt.Walk.{Visited, unvisited, reach, node_at_depth}
use manifestus.Hamt.Leaf.{Child, committed, dirty, furrow_capacity}
use manifestus.Hamt.Doc.{TractDoc, node, lone, extent, direct, furrow, decode_doc}
use manifestus.Hamt.State.{Hamt}
use manifestus.Hamt.Store.{read_doc}
use manifestus.Hamt.Trie.{levels}
use manifestus.Hamt.Scan.{Walk, StalePointer}
use manifestus.Hamt.Visit.{on_reads, report, report_stale, walk_children}

-- A committed pointer whose target no longer holds the block it names.
pub record DanglingPointer : Type 0 where
  pub route : List ℕ
  pub hash : List ℕ
  pub lba : ℕ
  pub key : Option (List ℕ)
  pub reason : String

-- The lists of the walk, with the dangling pointers.
pub record Mend : Type 0 where
  pub walk : Walk
  pub dangling : List DanglingPointer

abbrev pub on_lists : (Walk → Walk) → Mend → Mend
on_lists f w = record w { walk = f w.walk }

abbrev pub report_all : List (ℕ × List ℕ) → Walk → Walk
report_all blocks w = record w { out = w.out ++ blocks }

abbrev pub put_visited : Visited → Walk → Walk
put_visited v w = record w { visited = v }

-- The reason of an error that makes the pointer dangling, where the read of the target failed.
abbrev pub read_reason : Error → Option String
read_reason seal = some "target reused: sealed block does not match the pointer hash"
read_reason (corrupt reason) = some reason
read_reason _ = none

abbrev pub corrupt_reason : Error → Option String
corrupt_reason (corrupt reason) = some reason
corrupt_reason _ = none

module _ {M : Type 0} where
  abbrev pub note : (Mend → Mend) → Run (Mend × M) (Unit {0})
  note f (w, m) = (ok tt, (f w, m))

  abbrev pub dangles : ℕ → List ℕ → List ℕ → Option (List ℕ) → String → Run (Mend × M) (Unit {0})
  dangles lba hash route key reason = note (λ w. record w {
    dangling =
        w.dangling
        ++ record { route = route; hash = hash; lba = lba; key = key; reason = reason } ∷ [];
  })

  -- `if let Err(Error::Corrupt(reason)) = ..`: the pointer dangles, and any other result goes on.
  abbrev pub unless_corrupt :
      (String → Run (Mend × M) (Unit {0}))
      → Run (Mend × M) (Unit {0})
      → Option String
      → Run (Mend × M) (Unit {0})
  unless_corrupt refuse next none = next
  unless_corrupt refuse next (some reason) = refuse reason

  abbrev pub claimed_as :
      (String → Run (Mend × M) (Unit {0}))
      → Run (Mend × M) (Unit {0})
      → Result Visited
      → Run (Mend × M) (Unit {0})
  claimed_as refuse next (ok v) = λ (w, m). next (on_lists (put_visited v) w, m)
  claimed_as refuse next (err e) = unless_corrupt refuse next (corrupt_reason e)
  claimed_as refuse next stuck = lift stuck

  -- `visited.reach(lba)`
  unfoldable pub claim :
      ℕ
      → (String → Run (Mend × M) (Unit {0}))
      → Run (Mend × M) (Unit {0})
      → Run (Mend × M) (Unit {0})
  unfolding reach
  claim lba refuse next (w, m) = claimed_as refuse next (reach lba w.walk.visited) (w, m)

  abbrev pub at_depth :
      (String → Run (Mend × M) (Unit {0}))
      → Run (Mend × M) (Unit {0})
      → Result (Unit {0})
      → Run (Mend × M) (Unit {0})
  at_depth refuse next (ok u) = next
  at_depth refuse next (err e) = unless_corrupt refuse next (corrupt_reason e)
  at_depth refuse next stuck = lift stuck

module _ (c : Codec) where
  abbrev pub is_furrow_of : List ℕ → ℕ → List ℕ → Result TractDoc → Result (Option (List ℕ))
  is_furrow_of key i hash (ok (furrow k index payload)) =
      if bytes_eq k key && index == i then ok (some hash) else ok none
  is_furrow_of key i hash stuck = stuck
  is_furrow_of key i hash _ = ok none

  -- The hash of a block that is the key's furrow `i`.
  unfoldable pub sound_furrow : List ℕ → ℕ → Block → Result (Option (List ℕ))
  sound_furrow key i block = elim (sealed_hp c block) [
    | none ↦ ok none
    | some hash ↦ is_furrow_of key i hash (decode_doc c block)
  ]

module _ (c : Codec) {A B : Type 0} (devA : BlockDev A) (devB : BlockDev B) (t : Tract) where
  abbrev pub kept_or_lost :
      ((ℕ × List ℕ) → Run (Mend × Mirror A B) (Unit {0}))
      → (String → Run (Mend × Mirror A B) (Unit {0}))
      → ℕ
      → Option (List ℕ)
      → Run (Mend × Mirror A B) (Unit {0})
  kept_or_lost rest refuse pos none = refuse "furrow lost"
  kept_or_lost rest refuse pos (some hash) = rest (pos, hash)

  -- The furrows from the index `i`, and what is sound so far: all, or the leaf dangles.
  unfoldable pub check_furrows_from :
      List ℕ
      → ℕ × List ℕ
      → (String → Run (Mend × Mirror A B) (Unit {0}))
      → ℕ
      → List ℕ
      → List (ℕ × List ℕ)
      → Run (Mend × Mirror A B) (Unit {0})
  unfolding ◌>>=◌ ◌>>◌ claim sound_furrow
  check_furrows_from key leaf refuse i [] live = do
    note (on_lists (report leaf.0 leaf.1))
    note (on_lists (report_all live))
  check_furrows_from key leaf refuse i (pos ∷ ps) live =
      let rest =
        λ (x : ℕ × List ℕ). check_furrows_from key leaf refuse (i + 1) ps (live ++ x ∷ []) in
      let next : Run (Mend × Mirror A B) (Unit {0}) = (do
        buf ← on_reads (Tract.read devA devB t pos)
        found ← lift (sound_furrow c key i buf)
        kept_or_lost rest refuse pos found) in
      claim pos refuse next

  abbrev pub repair_check_furrows :
      ℕ → List ℕ → List ℕ → List ℕ → List ℕ → Run (Mend × Mirror A B) (Unit {0})
  repair_check_furrows lba hash route key positions =
      check_furrows_from key (lba, hash) (dangles lba hash route (some key)) 0 positions []

  abbrev pub repair_extent :
      ℕ → List ℕ → List ℕ → List ℕ → Result (List ℕ) → Run (Mend × Mirror A B) (Unit {0})
  repair_extent lba hash route key (ok positions) =
      repair_check_furrows lba hash route key positions
  repair_extent lba hash route key (err e) =
      unless_corrupt (dangles lba hash route (some key)) (lift (err e)) (corrupt_reason e)
  repair_extent lba hash route key stuck = lift stuck

  -- What the repair makes of a block that it reaches for the first time.
  unfoldable pub repair_here :
      (ℕ → List ℕ → List ℕ → ℕ → Run (Mend × Mirror A B) (Unit {0}))
      → ℕ
      → List ℕ
      → List ℕ
      → ℕ
      → TractDoc
      → Run (Mend × Mirror A B) (Unit {0})
  unfolding ◌>>◌ node_at_depth walk_children check_furrows_from
  repair_here go lba hash route depth (node n) =
      let next : Run (Mend × Mirror A B) (Unit {0}) = (do
        note (on_lists (report lba hash))
        walk_children go route depth 0 n.children) in
      at_depth (dangles lba hash route none) next (node_at_depth n.depth depth)
  repair_here go lba hash route depth (lone k v) = note (on_lists (report lba hash))
  repair_here go lba hash route depth (direct key size furrows) =
      repair_check_furrows lba hash route key furrows
  repair_here go lba hash route depth (extent key size runs) =
      repair_extent lba hash route key (expand_runs (furrow_capacity c) runs size t.len)
  repair_here go lba hash route depth (furrow k i p) =
      dangles lba hash route none "furrow block in index position"

  -- On the result of the read of the target.
  unfoldable pub repair_read :
      (ℕ → List ℕ → List ℕ → ℕ → Run (Mend × Mirror A B) (Unit {0}))
      → ℕ
      → List ℕ
      → List ℕ
      → ℕ
      → Mend
      → Result (Option TractDoc) × Mirror A B
      → Result (Unit {0}) × (Mend × Mirror A B)
  unfolding claim repair_here
  repair_read go lba hash route depth w (ok none, m) =
      note (on_lists (report_stale lba hash route)) (w, m)
  repair_read go lba hash route depth w (ok (some doc), m) =
      claim lba (dangles lba hash route none) (repair_here go lba hash route depth doc) (w, m)
  repair_read go lba hash route depth w (err e, m) =
      unless_corrupt (dangles lba hash route none) (lift (err e)) (read_reason e) (w, m)
  repair_read go lba hash route depth w (stuck, m) = (stuck, (w, m))

  unfoldable pub walk_child_repair :
      ℕ → ℕ → List ℕ → List ℕ → ℕ → Run (Mend × Mirror A B) (Unit {0})
  unfolding read_doc repair_read
  walk_child_repair zero lba hash route depth s = (stuck, s)
  walk_child_repair (suc left) lba hash route depth (w, m) =
      let go = walk_child_repair left in
      repair_read go lba hash route depth w (read_doc c devA devB t lba hash m)

  unfoldable pub repair_root :
      Mend × Mirror A B → Option Child → Result (Unit {0}) × (Mend × Mirror A B)
  unfolding walk_child_repair
  repair_root s none = (ok tt, s)
  repair_root s (some (dirty i)) = (ok tt, s)
  repair_root s (some (committed hash lba)) = walk_child_repair levels lba hash (replicate 32 0) 0 s

  unfoldable pub walk_live_repair :
      Hamt
      → List (ℕ × List ℕ)
      → List StalePointer
      → List DanglingPointer
      → Mirror A B
      → Result (Unit {0}) × (Mend × Mirror A B)
  unfolding unvisited repair_root
  walk_live_repair h out stale dangling m =
      let lists : Walk = record {
        todo = [];
        visited = unvisited t.len;
        out = out;
        referenced = [];
        stale = stale;
      } in
      repair_root (record { walk = lists; dangling = dangling }, m) h.root
