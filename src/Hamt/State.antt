-- ===== src/Hamt/State.antt =====
-- src/hamt.rs: the index in memory, `Hamt`: its root, the arena of dirty nodes, the delta of blocks
-- that become live and dead.
use manifestus.Base.{
  ℕ, zero, suc, Bool, true, false, not, ◌||◌, Option, none, some, List, [], ◌∷◌, ◌++◌, length,
  get_elem?, replicate, bytes_eq, leb, if◌then◌else◌,
}
use manifestus.Error.{Result, Run, ok, stuck}
use manifestus.Ring.Document.{zero_hash}
use manifestus.Hamt.Walk.{chunk}
use manifestus.Hamt.Leaf.{Child, committed, dirty, Node}
use manifestus.Hamt.Doc.{max_depth}

-- Positions and hashes that the vault must add to and remove from its live map.
pub record Delta : Type 0 where
  pub added : List (ℕ × List ℕ)
  pub removed : List (ℕ × List ℕ)

abbrev pub no_delta : Delta
no_delta = record { added = []; removed = [] }

pub record Hamt : Type 0 where
  pub root : Option Child
  pub arena : List Node
  pub delta : Delta
  pub repoint_hits : ℕ

abbrev pub empty : Hamt
empty = record { root = none; arena = []; delta = no_delta; repoint_hits = 0 }

-- Resume from a committed root; the hash of zeros is the empty index.
unfoldable pub from_root : List ℕ → ℕ → Hamt
from_root hash lba =
    if bytes_eq hash zero_hash then empty else record empty { root = some (committed hash lba) }

unfoldable pub is_dirty : Hamt → Bool
is_dirty h = elim h.root [
  | none ↦ false
  | some x ↦ elim x [ committed hash lba ↦ false | dirty i ↦ true ]
]

abbrev pub is_empty : List (ℕ × List ℕ) → Bool
is_empty [] = true
is_empty (x ∷ xs) = false

unfoldable pub has_uncommitted : Hamt → Bool
unfolding is_dirty
has_uncommitted h = is_dirty h || not (is_empty h.delta.added) || not (is_empty h.delta.removed)

unfoldable pub take_delta : Hamt → Delta × Hamt
take_delta h = (h.delta, record h { delta = no_delta })

abbrev pub new_node : ℕ → List ℕ → Node
new_node depth route = record { depth = depth; route = route; children = replicate 32 none }

-- `self.delta.added.push(..)`, `self.delta.removed.push(..)`
abbrev pub push_added : ℕ → List ℕ → Hamt → Hamt
push_added lba hash h = record h {
  delta = record h.delta { added = h.delta.added ++ (lba, hash) ∷ [] };
}

abbrev pub push_removed : ℕ → List ℕ → Hamt → Hamt
push_removed lba hash h = record h {
  delta = record h.delta { removed = h.delta.removed ++ (lba, hash) ∷ [] };
}

unfoldable pub set_nth : {A : Type 0} → ℕ → A → List A → List A
set_nth n a [] = []
set_nth zero a (x ∷ xs) = a ∷ xs
set_nth (suc n) a (x ∷ xs) = x ∷ set_nth n a xs

-- `node.children[chunk(key, depth) as usize]`: a panic at a depth that the key does not reach, and
-- at an index past the children.
unfoldable pub child_of : Node → List ℕ → ℕ → Result (Option Child)
child_of n key depth =
    if leb max_depth depth
    then stuck
    else elim (get_elem? n.children (chunk key depth)) [ none ↦ stuck | some x ↦ ok x ]

-- `self.arena[idx]`
unfoldable pub node_at : Hamt → ℕ → Result Node
node_at h idx = elim (get_elem? h.arena idx) [ none ↦ stuck | some n ↦ ok n ]

-- `self.arena[idx].children[c] = x`, after a read of the same child.
unfoldable pub set_child : ℕ → ℕ → Option Child → Hamt → Hamt
unfolding set_nth
set_child idx c x h = elim (get_elem? h.arena idx) [
  | none ↦ h
  | some n ↦ record h {
    arena = set_nth idx (record n { children = set_nth c x n.children }) h.arena;
  }
]

-- A node enters the arena: its index.
unfoldable pub push_node : Node → Run Hamt ℕ
push_node n h = (ok (length h.arena), record h { arena = h.arena ++ n ∷ [] })

-- A step of the index alone, or of the store alone, in a method that has both.
module _ {M X : Type 0} where
  abbrev pub beside : Hamt → Result X × M → Result X × (Hamt × M)
  beside h (r, m) = (r, (h, m))

  abbrev pub on_store : Run M X → Run (Hamt × M) X
  on_store f (h, m) = beside h (f m)

  abbrev pub before : M → Result X × Hamt → Result X × (Hamt × M)
  before m (r, h) = (r, (h, m))

  abbrev pub on_hamt : Run Hamt X → Run (Hamt × M) X
  on_hamt f (h, m) = before m (f h)

-- A change of the index that always succeeds, and a read of it.
abbrev pub update : {M : Type 0} → (Hamt → Hamt) → Run (Hamt × M) (Unit {0})
update f (h, m) = (ok tt, (f h, m))

abbrev pub look : {M X : Type 0} → (Hamt → Result X) → Run (Hamt × M) X
look f (h, m) = (f h, (h, m))
