-- ===== src/Mirror/State.antt =====
-- src/mirror.rs, `struct Mirror`: the two devices, the staged appends and the index cache. The sink
-- is the list of the events emitted, the cache is kept in order of position, and `scratch`, a buffer
-- that every use overwrites, is left out.
use manifestus.Base.{
  ℕ, suc, ◌^◌, min, Bool, false, ◌&&◌, ◌||◌, not, Option, none, some, is_some, List, [], ◌∷◌, ◌++◌,
  length, ltb, leb, ◌==◌, if◌then◌else◌,
}
use manifestus.Error.{Result, ok, err, corrupt}
use manifestus.Events.{StorageEvent}
use manifestus.Block.{Block}
use manifestus.Mirror.Device.{Placed}

-- A staged batch: a vector with room for `room` blocks.
pub record Batch : Type 0 where
  pub room : ℕ
  pub items : List Placed

pub record CacheEntry : Type 0 where
  pub lba : ℕ
  pub used : ℕ
  pub contents : Block

pub record Mirror (A B : Type 0) : Type 0 where
  pub a : Option A
  pub b : Option B
  pub degraded : Bool
  pub events : List StorageEvent
  pub pending : List Batch
  pub cache : List CacheEntry
  pub uses : ℕ

-- Blocks the index cache holds.
abbrev pub cache_blocks : ℕ
cache_blocks = 2 ^ 10

-- `pending.iter().flatten()`: the staged blocks, oldest first.
unfoldable pub staged : List Batch → List Placed
staged [] = []
staged (x ∷ r) = x.items ++ staged r

-- The last staging of a position: the search from the back.
unfoldable pub last_at : ℕ → List Placed → Option Block
last_at lba [] = none
last_at lba (p ∷ ps) = elim (last_at lba ps) [
  | some b ↦ some b
  | none ↦ if p.0 == lba then some p.1 else none
]

unfoldable pub without : ℕ → List CacheEntry → List CacheEntry
without lba [] = []
without lba (e ∷ es) = if e.lba == lba then es else e ∷ without lba es

unfoldable pub without_all : List Placed → List CacheEntry → List CacheEntry
unfolding without
without_all [] c = c
without_all (p ∷ ps) c = without_all ps (without p.0 c)

unfoldable pub cached_at : ℕ → List CacheEntry → Option Block
cached_at lba [] = none
cached_at lba (e ∷ es) = if e.lba == lba then some e.contents else cached_at lba es

-- `self.cache[i].1 = self.uses`
unfoldable pub touch : ℕ → ℕ → List CacheEntry → List CacheEntry
touch lba uses [] = []
touch lba uses (e ∷ es) =
    if e.lba == lba then record e { used = uses } ∷ es else e ∷ touch lba uses es

unfoldable pub insert_entry : CacheEntry → List CacheEntry → List CacheEntry
insert_entry x [] = x ∷ []
insert_entry x (e ∷ es) = if ltb x.lba e.lba then x ∷ e ∷ es else e ∷ insert_entry x es

unfoldable pub least_used : ℕ → List CacheEntry → ℕ
least_used n [] = n
least_used n (e ∷ es) = least_used (min n e.used) es

-- The first entry whose last use is `u` goes.
unfoldable pub drop_used : ℕ → List CacheEntry → List CacheEntry
drop_used u [] = []
drop_used u (e ∷ es) = if e.used == u then es else e ∷ drop_used u es

unfoldable pub evict : List CacheEntry → List CacheEntry
unfolding least_used drop_used
evict [] = []
evict (e ∷ es) =
    if leb cache_blocks (length (e ∷ es)) then drop_used (least_used e.used es) (e ∷ es) else e ∷ es

-- `stage_one`'s push: into the last batch while it has room, else into a batch of its own.
unfoldable pub push_last : Placed → List Batch → List Batch
push_last p [] = record { room = 1; items = p ∷ [] } ∷ []
push_last p (x ∷ []) =
    if ltb (length x.items) x.room
    then record x { items = x.items ++ p ∷ [] } ∷ []
    else x ∷ record { room = 1; items = p ∷ [] } ∷ []
push_last p (x ∷ y ∷ r) = x ∷ push_last p (y ∷ r)

module _ {A B : Type 0} where
  unfoldable pub new : A → B → Mirror A B
  new a b = record {
    a = some a;
    b = some b;
    degraded = false;
    events = [];
    pending = [];
    cache = [];
    uses = 0;
  }

  unfoldable pub from_parts : Option A → Option B → Result (Mirror A B)
  from_parts a b =
      if not (is_some a) && not (is_some b)
      then err (corrupt "mirror requires at least one device")
      else ok (record {
        a = a;
        b = b;
        degraded = not (is_some a) || not (is_some b);
        events = [];
        pending = [];
        cache = [];
        uses = 0;
      })

  unfoldable pub forget : ℕ → Mirror A B → Mirror A B
  forget lba m = record m { cache = without lba m.cache }

  unfoldable pub stage : List Placed → Mirror A B → Mirror A B
  stage [] m = m
  stage (p ∷ ps) m = record m {
    cache = without_all (p ∷ ps) m.cache;
    pending = m.pending ++ record { room = suc (length ps); items = p ∷ ps } ∷ [];
  }

  unfoldable pub reserve_staged : ℕ → Mirror A B → Mirror A B
  reserve_staged n m =
      if ltb 0 n
      then record m { pending = m.pending ++ record { room = n; items = [] } ∷ [] }
      else m

  unfoldable pub stage_one : ℕ → Block → Mirror A B → Mirror A B
  unfolding forget
  stage_one lba b m = record (forget lba m) { pending = push_last (lba, b) m.pending }

  unfoldable pub emit : StorageEvent → Mirror A B → Mirror A B
  emit e m = record m { events = m.events ++ e ∷ [] }
