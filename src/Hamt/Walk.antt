-- ===== src/Hamt/Walk.antt =====
-- src/hamt.rs: the key's chunks, the walk's record of what it reached, and the depth check.
use manifestus.Base.{
  ℕ, zero, suc, ◌+◌, ◌-◌, ◌*◌, ◌/◌, ◌%◌, ◌^◌, Bool, false, not, ◌||◌, List, [], ◌∷◌, ltb, ◌==◌,
  if◌then◌else◌,
}
use manifestus.Error.{Result, ok, err, stuck, corrupt}

-- A byte of a key.
unfoldable pub byte_at : List ℕ → ℕ → ℕ
byte_at [] i = 0
byte_at (b ∷ bs) zero = b
byte_at (b ∷ bs) (suc i) = byte_at bs i

unfoldable pub set_byte : List ℕ → ℕ → ℕ → List ℕ
set_byte [] i x = []
set_byte (b ∷ bs) zero x = x ∷ bs
set_byte (b ∷ bs) (suc i) x = b ∷ set_byte bs i x

-- Two bytes from `byte`; the second is 0 behind the end of the key.
unfoldable pub window : List ℕ → ℕ → ℕ
unfolding byte_at
window key byte =
    byte_at key byte * 2 ^ 8 + (if ltb (byte + 1) 32 then byte_at key (byte + 1) else 0)

-- 5-bit chunk of the key at `depth`.
unfoldable pub chunk : List ℕ → ℕ → ℕ
unfolding window
chunk key depth = let bit = depth * 5 in window key (bit / 8) / 2 ^ (11 - bit % 8) % 32

-- `base` with the 5-bit chunk at `depth` set to `slot`: five bits of the window are replaced.
unfoldable pub route_with_chunk : List ℕ → ℕ → ℕ → List ℕ
unfolding window set_byte
route_with_chunk base depth slot =
    let bit = depth * 5 in
    let byte = bit / 8 in
    let unit = 2 ^ (11 - bit % 8) in
    let old = window base byte in
    let new = old - old / unit % 32 * unit + slot * unit in
    let first = set_byte base byte (new / 2 ^ 8 % 2 ^ 8) in
    if ltb (byte + 1) 32 then set_byte first (byte + 1) (new % 2 ^ 8) else first

-- The walk's bitset: its words of 64 bits, and the positions whose bit is set.
pub record Visited : Type 0 where
  pub words : ℕ
  pub reached : List ℕ

unfoldable pub unvisited : ℕ → Visited
unvisited tract_len = record { words = (tract_len + 63) / 2 ^ 6; reached = [] }

unfoldable pub is_reached : ℕ → List ℕ → Bool
is_reached lba [] = false
is_reached lba (x ∷ xs) = x == lba || is_reached lba xs

-- Mark a position reached; it is corrupt when it already was. A word out of range is a panic.
unfoldable pub reach : ℕ → Visited → Result Visited
unfolding is_reached
reach lba v =
    if not (ltb (lba / 2 ^ 6) v.words)
    then stuck
    else if is_reached lba v.reached
    then err (corrupt "tract lba reached twice")
    else ok (record v { reached = lba ∷ v.reached })

-- A node must claim the depth it is read at.
unfoldable pub node_at_depth : ℕ → ℕ → Result (Unit {0})
node_at_depth claimed depth =
    if not (claimed == depth) then err (corrupt "node claims another depth") else ok tt
