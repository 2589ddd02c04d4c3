-- ===== src/Hamt/Visit.antt =====
-- src/hamt.rs, the depth-first walks of the committed index: the blocks that are live, with the
-- furrows read, and the keys. The fuel is what is left of the 53 levels.
use manifestus.Base.{ℕ, zero, suc, ◌+◌, Option, none, some, List, [], ◌∷◌, ◌++◌, replicate}
use manifestus.Error.{Result, Run, ok, err, stuck, ◌>>=◌, ◌>>◌, pure, lift}
use manifestus.Block.{BlockDev}
use manifestus.Mirror.State.{Mirror}
use manifestus.Ring.Codec.{Codec}
use manifestus.Ring.Document.{sealed_hp}
use manifestus.Tract
use manifestus.Tract.{Tract}
use manifestus.Hamt.Runs.{expand_runs}
use manifestus.Hamt.Walk.{Visited, unvisited, reach, node_at_depth, route_with_chunk}
use manifestus.Hamt.Leaf.{Child, committed, dirty, furrow_capacity}
use manifestus.Hamt.Doc.{TractDoc, node, lone, extent, direct, furrow}
use manifestus.Hamt.State.{Hamt}
use manifestus.Hamt.Store.{read_doc}
use manifestus.Hamt.Trie.{levels}
use manifestus.Hamt.Scan.{Walk, StalePointer, add, mark}

-- The keys that a walk has found.
pub record KeyWalk : Type 0 where
  pub visited : Visited
  pub keys : List (List ℕ)

abbrev pub next_to : {W M X : Type 0} → M → Result X × W → Result X × (W × M)
next_to m (r, w) = (r, (w, m))

abbrev pub behind : {W M X : Type 0} → W → Result X × M → Result X × (W × M)
behind w (r, m) = (r, (w, m))

-- A step on the walk's lists, and a read below them.
abbrev pub on_walk : {W M X : Type 0} → Run W X → Run (W × M) X
on_walk f (w, m) = next_to m (f w)

abbrev pub on_reads : {W M X : Type 0} → Run M X → Run (W × M) X
on_reads f (w, m) = behind w (f m)

abbrev pub report : ℕ → List ℕ → Walk → Walk
report lba hash w = record w { out = w.out ++ (lba, hash) ∷ [] }

abbrev pub report_stale : ℕ → List ℕ → List ℕ → Walk → Walk
report_stale lba hash route w = record w {
  stale = w.stale ++ record { route = route; hash = hash; lba = lba } ∷ [];
}

abbrev pub push_key : List ℕ → Run KeyWalk (Unit {0})
push_key key w = (ok tt, record w { keys = w.keys ++ key ∷ [] })

-- `visited.reach(lba)?`
abbrev pub key_reached : KeyWalk → Result Visited → Result (Unit {0}) × KeyWalk
key_reached w (ok v) = (ok tt, record w { visited = v })
key_reached w (err e) = (err e, w)
key_reached w stuck = (stuck, w)

unfoldable pub mark_key : ℕ → Run KeyWalk (Unit {0})
unfolding reach
mark_key lba w = key_reached w (reach lba w.visited)

-- The committed children from the slot `s`, each with the route to it.
unfoldable pub walk_children :
    {S : Type 0}
    → (ℕ → List ℕ → List ℕ → ℕ → Run S (Unit {0}))
    → List ℕ
    → ℕ
    → ℕ
    → List (Option Child)
    → Run S (Unit {0})
unfolding ◌>>◌ route_with_chunk
walk_children go route depth s [] = pure tt
walk_children go route depth s (none ∷ cs) = walk_children go route depth (s + 1) cs
walk_children go route depth s (some (dirty i) ∷ cs) = walk_children go route depth (s + 1) cs
walk_children go route depth s (some (committed hash lba) ∷ cs) =
    let rest = walk_children go route depth (s + 1) cs in
    do go lba hash (route_with_chunk route depth s) (depth + 1); rest

module _ {M : Type 0} where
  unfoldable pub keys_children :
      (ℕ → List ℕ → ℕ → Run (KeyWalk × M) (Unit {0}))
      → ℕ
      → List (Option Child)
      → Run (KeyWalk × M) (Unit {0})
  unfolding ◌>>◌
  keys_children go depth [] = pure tt
  keys_children go depth (none ∷ cs) = keys_children go depth cs
  keys_children go depth (some (dirty i) ∷ cs) = keys_children go depth cs
  keys_children go depth (some (committed hash lba) ∷ cs) =
      let rest = keys_children go depth cs in do go lba hash (depth + 1); rest

  -- What the walk of the keys makes of a block.
  unfoldable pub keys_doc :
      (ℕ → List ℕ → ℕ → Run (KeyWalk × M) (Unit {0})) → ℕ → TractDoc → Run (KeyWalk × M) (Unit {0})
  unfolding ◌>>◌ node_at_depth keys_children
  keys_doc go depth (node n) = do
    lift (node_at_depth n.depth depth)
    keys_children go depth n.children
  keys_doc go depth (lone key v) = on_walk (push_key key)
  keys_doc go depth (extent key size runs) = on_walk (push_key key)
  keys_doc go depth (direct key size furrows) = on_walk (push_key key)
  keys_doc go depth (furrow k i p) = pure tt

  -- A deleted leaf behind a stale pointer is not live.
  unfoldable pub keys_found :
      (ℕ → List ℕ → ℕ → Run (KeyWalk × M) (Unit {0}))
      → ℕ
      → ℕ
      → Option TractDoc
      → Run (KeyWalk × M) (Unit {0})
  unfolding ◌>>◌ mark_key keys_doc
  keys_found go lba depth none = pure tt
  keys_found go lba depth (some doc) = do on_walk (mark_key lba); keys_doc go depth doc

  abbrev pub report_sealed : ℕ → Option (List ℕ) → Run (Walk × M) (Unit {0})
  report_sealed lba none = pure tt
  report_sealed lba (some hash) = on_walk (add (report lba hash))

module _ (c : Codec) {A B : Type 0} (devA : BlockDev A) (devB : BlockDev B) (t : Tract) where
  -- The furrows of a value, in their order.
  unfoldable pub walk_furrows : List ℕ → Run (Walk × Mirror A B) (Unit {0})
  unfolding ◌>>=◌ ◌>>◌ mark
  walk_furrows [] = pure tt
  walk_furrows (f ∷ fs) =
      let rest = walk_furrows fs in
      do
        on_walk (mark f)
        buf ← on_reads (Tract.read devA devB t f)
        report_sealed f (sealed_hp c buf)
        rest

  -- What is below a live block.
  unfoldable pub walk_below :
      (ℕ → List ℕ → List ℕ → ℕ → Run (Walk × Mirror A B) (Unit {0}))
      → List ℕ
      → ℕ
      → TractDoc
      → Run (Walk × Mirror A B) (Unit {0})
  unfolding ◌>>=◌ ◌>>◌ node_at_depth walk_children walk_furrows
  walk_below go route depth (node n) = do
    lift (node_at_depth n.depth depth)
    walk_children go route depth 0 n.children
  walk_below go route depth (direct k s furrows) = walk_furrows furrows
  walk_below go route depth (extent k size runs) = do
    positions ← lift (expand_runs (furrow_capacity c) runs size t.len)
    walk_furrows positions
  walk_below go route depth (lone k v) = pure tt
  walk_below go route depth (furrow k i p) = pure tt

  unfoldable pub walk_here :
      (ℕ → List ℕ → List ℕ → ℕ → Run (Walk × Mirror A B) (Unit {0}))
      → ℕ
      → List ℕ
      → List ℕ
      → ℕ
      → Option TractDoc
      → Run (Walk × Mirror A B) (Unit {0})
  unfolding ◌>>◌ walk_below
  walk_here go lba hash route depth none = on_walk (add (report_stale lba hash route))
  walk_here go lba hash route depth (some doc) = do
    on_walk (add (report lba hash))
    walk_below go route depth doc

  unfoldable pub walk_child : ℕ → ℕ → List ℕ → List ℕ → ℕ → Run (Walk × Mirror A B) (Unit {0})
  unfolding ◌>>=◌ ◌>>◌ mark read_doc walk_here
  walk_child zero lba hash route depth = lift stuck
  walk_child (suc left) lba hash route depth =
      let go = walk_child left in
      do
        doc ← on_reads (read_doc c devA devB t lba hash)
        on_walk (mark lba)
        walk_here go lba hash route depth doc

  -- Only a committed root is walked.
  unfoldable pub walk_root :
      Walk × Mirror A B → Option Child → Result (Unit {0}) × (Walk × Mirror A B)
  unfolding walk_child
  walk_root s none = (ok tt, s)
  walk_root s (some (dirty i)) = (ok tt, s)
  walk_root s (some (committed hash lba)) = walk_child levels lba hash (replicate 32 0) 0 s

  -- From the committed root, with a new record of what is reached.
  unfoldable pub walk_live_collect :
      Hamt
      → List (ℕ × List ℕ)
      → List StalePointer
      → Mirror A B
      → Result (Unit {0}) × (Walk × Mirror A B)
  unfolding unvisited walk_root
  walk_live_collect h out stale m =
      let start : Walk = record {
        todo = [];
        visited = unvisited t.len;
        out = out;
        referenced = [];
        stale = stale;
      } in
      walk_root (start, m) h.root

  -- The same, without the stale pointers.
  unfoldable pub walk_live :
      Hamt → List (ℕ × List ℕ) → Mirror A B → Result (Unit {0}) × (Walk × Mirror A B)
  unfolding walk_live_collect
  walk_live h out m = walk_live_collect h out [] m

  unfoldable pub walk_keys_child : ℕ → ℕ → List ℕ → ℕ → Run (KeyWalk × Mirror A B) (Unit {0})
  unfolding ◌>>=◌ read_doc keys_found
  walk_keys_child zero lba hash depth = lift stuck
  walk_keys_child (suc left) lba hash depth =
      let go = walk_keys_child left in
      do doc ← on_reads (read_doc c devA devB t lba hash); keys_found go lba depth doc

  unfoldable pub walk_keys :
      Hamt → List (List ℕ) → Mirror A B → Result (Unit {0}) × (KeyWalk × Mirror A B)
  unfolding unvisited walk_keys_child
  walk_keys h keys m =
      let start : KeyWalk = record { visited = unvisited t.len; keys = keys } in
      elim h.root [
        | none ↦ (ok tt, (start, m))
        | some x ↦ elim x [
          | committed hash lba ↦ walk_keys_child levels lba hash 0 (start, m)
          | dirty i ↦ (ok tt, (start, m))
        ]
      ]
