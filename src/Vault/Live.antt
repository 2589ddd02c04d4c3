-- ===== src/Vault/Live.antt =====
-- src/vault.rs, `LiveSet`. The hash map is an association list with one entry to a position, the
-- hash set a list of positions.
use manifestus.Base.{
  ℕ, ◌+◌, Bool, true, false, ◌&&◌, ◌||◌, Option, none, some, is_some, List, [], ◌∷◌, ◌++◌, length,
  bytes_eq, ◌==◌, if◌then◌else◌,
}
use manifestus.Tract.{Liveness}
use manifestus.Hamt.State.{Delta}

-- Position and hash.
abbrev pub Entry : Type 0
Entry = ℕ × List ℕ

-- src/hamt.rs, `Delta`
pub record LiveSet : Type 0 where
  pub hashed : List Entry
  pub referenced : List ℕ

unfoldable pub lookup : ℕ → List Entry → Option (List ℕ)
lookup lba [] = none
lookup lba (e ∷ es) = if e.0 == lba then some e.1 else lookup lba es

unfoldable pub remove : ℕ → List Entry → List Entry
remove lba [] = []
remove lba (e ∷ es) = if e.0 == lba then remove lba es else e ∷ remove lba es

unfoldable pub insert : Entry → List Entry → List Entry
unfolding remove
insert e es = e ∷ remove e.0 es

unfoldable pub contains : ℕ → List ℕ → Bool
contains lba [] = false
contains lba (x ∷ xs) = x == lba || contains lba xs

unfoldable pub discard : ℕ → List ℕ → List ℕ
discard lba [] = []
discard lba (x ∷ xs) = if x == lba then discard lba xs else x ∷ discard lba xs

abbrev pub is_exactly : Option (List ℕ) → List ℕ → Bool
is_exactly none hp = false
is_exactly (some h) hp = bytes_eq h hp

unfoldable pub add_all : List Entry → LiveSet → LiveSet
unfolding insert discard
add_all [] l = l
add_all (e ∷ es) l =
    add_all es (record { hashed = insert e l.hashed; referenced = discard e.0 l.referenced })

-- An entry goes only with the hash it was added with; a position marked without a hash always.
unfoldable pub remove_one : Entry → LiveSet → LiveSet
unfolding lookup remove discard
remove_one e l = record {
  hashed = if is_exactly (lookup e.0 l.hashed) e.1 then remove e.0 l.hashed else l.hashed;
  referenced = discard e.0 l.referenced;
}

unfoldable pub remove_all : List Entry → LiveSet → LiveSet
unfolding remove_one
remove_all [] l = l
remove_all (e ∷ es) l = remove_all es (remove_one e l)

-- Added first, then removed.
unfoldable pub apply : Delta → LiveSet → LiveSet
unfolding add_all remove_all
apply d l = remove_all d.removed (add_all d.added l)

unfoldable pub mark_referenced : ℕ → LiveSet → LiveSet
unfolding lookup
mark_referenced lba l =
    if is_some (lookup lba l.hashed)
    then l
    else record l { referenced = lba ∷ discard lba l.referenced }

unfoldable pub live_count : LiveSet → ℕ
live_count l = length l.hashed + length l.referenced

unfoldable pub live_blocks : LiveSet → ℕ
live_blocks l = length l.hashed + length l.referenced

abbrev pub is_nil : {X : Type 0} → List X → Bool
is_nil [] = true
is_nil (x ∷ xs) = false

unfoldable pub is_empty : LiveSet → Bool
is_empty l = is_nil l.hashed && is_nil l.referenced

unfoldable pub keys : List Entry → List ℕ
keys [] = []
keys (e ∷ es) = e.0 ∷ keys es

-- Every live position, hashed or not.
unfoldable pub positions : LiveSet → List ℕ
unfolding keys
positions l = keys l.hashed ++ l.referenced

unfoldable pub is_live : LiveSet → ℕ → List ℕ → Bool
unfolding lookup contains
is_live l lba hp = is_exactly (lookup lba l.hashed) hp || contains lba l.referenced

unfoldable pub is_referenced : LiveSet → ℕ → Bool
unfolding lookup contains
is_referenced l lba = is_some (lookup lba l.hashed) || contains lba l.referenced

-- The vault's oracle for the tract.
unfoldable pub liveness : LiveSet → Liveness
unfolding is_live is_referenced
liveness l = record { is_live = is_live l; is_referenced = is_referenced l }
