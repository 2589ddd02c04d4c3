-- ===== src/Hamt/Scan.antt =====
-- src/hamt.rs, the tree walk in steps: the pointers still to read, and what the walk has found.
use manifestus.Base.{
  ℕ, zero, suc, ◌+◌, ◌-◌, ◌*◌, ◌^◌, Option, none, some, List, [], ◌∷◌, ◌++◌, length, take, drop,
  map, replicate,
}
use manifestus.Error.{Result, Run, ok, err, stuck, ◌>>=◌, ◌>>◌, pure, lift}
use manifestus.Block.{Block, BlockDev}
use manifestus.Mirror.State.{Mirror}
use manifestus.Ring.Codec.{Codec}
use manifestus.Tract.{Tract, read_many}
use manifestus.Hamt.Runs.{expand_runs}
use manifestus.Hamt.Walk.{Visited, unvisited, reach, node_at_depth, route_with_chunk}
use manifestus.Hamt.Leaf.{Child, committed, dirty, furrow_capacity}
use manifestus.Hamt.Doc.{TractDoc, node, lone, extent, direct, furrow, doc_of}
use manifestus.Hamt.State.{Hamt}

-- A pointer still to read: its position, hash, route and depth.
pub record WalkItem : Type 0 where
  pub lba : ℕ
  pub hash : List ℕ
  pub route : List ℕ
  pub depth : ℕ

-- Pointers that a step reads together.
abbrev pub walk_step : ℕ
walk_step = 2 ^ 8

pub record StalePointer : Type 0 where
  pub route : List ℕ
  pub hash : List ℕ
  pub lba : ℕ

-- The lists that a walk takes by `&mut`; only the walk in steps has a list of pointers to read.
pub record Walk : Type 0 where
  pub todo : List WalkItem
  pub visited : Visited
  pub out : List (ℕ × List ℕ)
  pub referenced : List ℕ
  pub stale : List StalePointer

abbrev pub add : (Walk → Walk) → Run Walk (Unit {0})
add f w = (ok tt, f w)

-- `visited.reach(lba)?`
abbrev pub reached_or : Walk → Result Visited → Result (Unit {0}) × Walk
reached_or w (ok v) = (ok tt, record w { visited = v })
reached_or w (err e) = (err e, w)
reached_or w stuck = (stuck, w)

unfoldable pub mark : ℕ → Run Walk (Unit {0})
unfolding reach
mark lba w = reached_or w (reach lba w.visited)

-- The committed children from the slot `s` are put on the list.
unfoldable pub push_children : List ℕ → ℕ → ℕ → List (Option Child) → Walk → Walk
unfolding route_with_chunk
push_children route depth s [] w = w
push_children route depth s (none ∷ cs) w = push_children route depth (s + 1) cs w
push_children route depth s (some (dirty i) ∷ cs) w = push_children route depth (s + 1) cs w
push_children route depth s (some (committed hash lba) ∷ cs) w =
    push_children route depth (s + 1) cs (record w {
      todo =
          w.todo
          ++ record {
            lba = lba;
            hash = hash;
            route = route_with_chunk route depth s;
            depth = depth + 1;
          }
            ∷ [];
    })

-- Furrows are reported by position, unread.
unfoldable pub refer : List ℕ → Run Walk (Unit {0})
unfolding ◌>>◌ mark
refer [] = pure tt
refer (f ∷ fs) =
    let rest = refer fs in
    do mark f; add (λ w. record w { referenced = w.referenced ++ f ∷ [] }); rest

-- The committed root, if any, with the route of zeros.
unfoldable pub walk_start : Hamt → List WalkItem
walk_start h = elim h.root [
  | none ↦ []
  | some x ↦ elim x [
    | committed hash lba ↦ record { lba = lba; hash = hash; route = replicate 32 0; depth = 0 } ∷ []
    | dirty i ↦ []
  ]
]

module _ (c : Codec) where
  -- What the walk makes of a document at its pointer.
  unfoldable pub walk_doc : ℕ → WalkItem → TractDoc → Run Walk (Unit {0})
  unfolding ◌>>=◌ ◌>>◌ node_at_depth push_children refer
  walk_doc tract_len x (node n) = do
    lift (node_at_depth n.depth x.depth)
    add (push_children x.route x.depth 0 n.children)
  walk_doc tract_len x (direct k s furrows) = refer furrows
  walk_doc tract_len x (extent k size runs) = do
    positions ← lift (expand_runs (furrow_capacity c) runs size tract_len)
    refer positions
  walk_doc tract_len x (lone k v) = pure tt
  walk_doc tract_len x (furrow k i p) = pure tt

  -- A pointer that reads as zeros is stale.
  unfoldable pub walk_found : ℕ → WalkItem → Option TractDoc → Run Walk (Unit {0})
  unfolding ◌>>◌ walk_doc
  walk_found tract_len x none = add (λ w. record w {
    stale = w.stale ++ record { route = x.route; hash = x.hash; lba = x.lba } ∷ [];
  })
  walk_found tract_len x (some doc) = do
    add (λ w. record w { out = w.out ++ (x.lba, x.hash) ∷ [] })
    walk_doc tract_len x doc

  unfoldable pub walk_block : ℕ → WalkItem → Block → Run Walk (Unit {0})
  unfolding ◌>>=◌ ◌>>◌ mark doc_of walk_found
  walk_block tract_len x block = do
    mark x.lba
    doc ← lift (doc_of c block x.hash tract_len)
    walk_found tract_len x doc

  -- The loop over the pointers of a step and their blocks.
  unfoldable pub walk_blocks : ℕ → List WalkItem → List Block → Run Walk (Unit {0})
  unfolding ◌>>◌ walk_block
  walk_blocks tract_len [] blocks = pure tt
  walk_blocks tract_len (x ∷ xs) [] = pure tt
  walk_blocks tract_len (x ∷ xs) (b ∷ bs) =
      let rest = walk_blocks tract_len xs bs in do walk_block tract_len x b; rest

  module _ {A B : Type 0} (devA : BlockDev A) (devB : BlockDev B) where
    abbrev pub beside_mirror :
        {X : Type 0} → Mirror A B → Result X × Walk → Result X × (Walk × Mirror A B)
    beside_mirror m (r, w) = (r, (w, m))

    -- The blocks of the step are there, or the pointers go back on the list.
    abbrev pub walk_read :
        Tract
        → List WalkItem
        → Walk
        → Result (List Block) × Mirror A B
        → Result (Unit {0}) × (Walk × Mirror A B)
    walk_read t part w (ok blocks, m) = beside_mirror m (walk_blocks t.len part blocks w)
    walk_read t part w (err e, m) = (err e, (record w { todo = w.todo ++ part }, m))
    walk_read t part w (stuck, m) = (stuck, (w, m))

    unfoldable pub walk_tree_step : Tract → Run (Walk × Mirror A B) (Unit {0})
    unfolding walk_blocks read_many
    walk_tree_step t (w, m) =
        let at = length w.todo - walk_step in
        let part = drop at w.todo in
        walk_read t part (record w { todo = take at w.todo })
          (read_many devA devB t (map (λ (x : WalkItem). x.lba) part) m)

    -- The loop, with fuel.
    unfoldable pub walk_steps : ℕ → Tract → Run (Walk × Mirror A B) (Unit {0})
    unfolding ◌>>◌ walk_tree_step
    walk_steps zero t (w, m) = (stuck, (w, m))
    walk_steps (suc fuel) t (w, m) =
        let rest = walk_steps fuel t in
        let step = walk_tree_step t >> rest in
        elim w.todo [ [] ↦ (ok tt, (w, m)) | x ∷ xs ↦ step (w, m) ]

    -- The positions of the bitset are fuel enough: every step reaches a new one.
    unfoldable pub walk_tree_collect :
        Hamt
        → Tract
        → List (ℕ × List ℕ)
        → List ℕ
        → List StalePointer
        → Mirror A B
        → Result (Unit {0}) × (Walk × Mirror A B)
    unfolding walk_start unvisited walk_steps
    walk_tree_collect h t out referenced stale m =
        let visited = unvisited t.len in
        let start : Walk = record {
          todo = walk_start h;
          visited = visited;
          out = out;
          referenced = referenced;
          stale = stale;
        } in
        walk_steps (suc (visited.words * 2 ^ 6)) t (start, m)
