-- ===== src/Ring/Root.antt =====
-- src/ring.rs, the root ring of the migrating profile, and the whole-file scan.
use manifestus.Base.{
  ℕ, zero, suc, ◌+◌, ◌%◌, min, Bool, true, false, not, Option, none, some, List, [], ◌∷◌, bytes_eq,
  ltb, ◌==◌, if◌then◌else◌, masked, drop,
}
use manifestus.Error.{Result, Run, ok, err, stuck, and_then, ◌>>=◌, pure}
use manifestus.Block.{Block, BlockDev}
use manifestus.Mirror.State.{Mirror}
use manifestus.Mirror.Ops.{write_verified}
use manifestus.Ring.Codec.{Codec, VsfType, hp, u, e6, as_u64, text, ℤ}
use manifestus.Ring.Document.{Field, encode_doc, decode_doc, block_is_sealed}
use manifestus.Ring.Entry.{to32, required}

abbrev pub root_slots : ℕ
root_slots = 4

abbrev pub schema_root : List ℕ
schema_root = text "manifestus.root"

pub record RootEntry : Type 0 where
  pub gen : ℕ
  pub prev_hash : List ℕ
  pub ring_log2 : ℕ
  pub at : ℕ
  pub was : ℕ
  pub since : ℕ
  pub residences : ℕ
  pub residency : ℕ
  pub eagle_time : ℤ

-- The local variables of the field loop.
pub record RootFields : Type 0 where
  pub gen : Option ℕ
  pub prev : Option (List ℕ)
  pub ring : Option ℕ
  pub at : Option ℕ
  pub was : Option ℕ
  pub since : Option ℕ
  pub band : Option ℕ
  pub stay : Option ℕ
  pub time : Option ℤ

abbrev pub no_root_fields : RootFields
no_root_fields = record {
  gen = none;
  prev = none;
  ring = none;
  at = none;
  was = none;
  since = none;
  band = none;
  stay = none;
  time = none;
}

unfoldable pub root_fields_of : RootEntry → List Field
root_fields_of e =
    (text "gen", u e.gen)
    ∷ (text "prev", hp e.prev_hash)
    ∷ (text "ring", u e.ring_log2)
    ∷ (text "at", u e.at)
    ∷ (text "was", u e.was)
    ∷ (text "since", u e.since)
    ∷ (text "band", u e.residences)
    ∷ (text "stay", u e.residency)
    ∷ (text "time", e6 e.eagle_time)
    ∷ []

abbrev pub root_number : Option ℕ → (ℕ → RootFields) → RootFields → Result RootFields
root_number (some n) found fs = ok (found n)
root_number none found fs = ok fs

abbrev pub root_hash : VsfType → RootFields → Result RootFields
root_hash (hp h) fs = and_then (to32 h) (λ k. ok (record fs { prev = some k }))
root_hash _ fs = ok fs

abbrev pub root_time : VsfType → RootFields → Result RootFields
root_time (e6 t) fs = ok (record fs { time = some t })
root_time _ fs = ok fs

unfoldable pub absorb_root_as : Option ℕ → List ℕ → VsfType → RootFields → Result RootFields
absorb_root_as o name x fs =
    if bytes_eq name (text "gen")
    then root_number o (λ n. record fs { gen = some n }) fs
    else if bytes_eq name (text "prev")
    then root_hash x fs
    else if bytes_eq name (text "ring")
    then root_number o (λ n. record fs { ring = some (n % 256) }) fs
    else if bytes_eq name (text "at")
    then root_number o (λ n. record fs { at = some n }) fs
    else if bytes_eq name (text "was")
    then root_number o (λ n. record fs { was = some n }) fs
    else if bytes_eq name (text "since")
    then root_number o (λ n. record fs { since = some n }) fs
    else if bytes_eq name (text "band")
    then root_number o (λ n. record fs { band = some n }) fs
    else if bytes_eq name (text "stay")
    then root_number o (λ n. record fs { stay = some n }) fs
    else if bytes_eq name (text "time")
    then root_time x fs
    else ok fs

unfoldable pub absorb_root : List ℕ → VsfType → RootFields → Result RootFields
absorb_root name x fs = absorb_root_as (as_u64 x) name x fs

unfoldable pub assemble_root : RootFields → Result RootEntry
assemble_root fs = required fs.gen (λ gen. required fs.prev (λ prev. required fs.ring (λ ring.
    required fs.at (λ at. required fs.was (λ was. required fs.since (λ since.
      required fs.band (λ band. required fs.stay (λ stay. required fs.time (λ time. ok (record {
        gen = gen;
        prev_hash = prev;
        ring_log2 = ring;
        at = at;
        was = was;
        since = since;
        residences = band;
        residency = stay;
        eagle_time = time;
      }))))))))))

module _ (c : Codec) where
  unfoldable pub encode_root : RootEntry → Result Block
  encode_root e = encode_doc c schema_root (root_fields_of e)

  unfoldable pub decode_root : Block → Result RootEntry
  decode_root block =
      and_then (decode_doc c absorb_root schema_root no_root_fields block) assemble_root

  unfoldable pub root_body_hash : RootEntry → Result (List ℕ)
  root_body_hash e = and_then (encode_root e) (λ block. elim (c.parse block 4) [
    | some (x, ptr) ↦ ok (c.hash (drop (ptr + 1) block))
    | none ↦ ok (c.hash (drop (4 + 1) block))
  ])

  abbrev pub is_newer : RootEntry → Option RootEntry → Bool
  is_newer e none = true
  is_newer e (some b) = ltb b.gen e.gen

  -- The best root entry after the block of a slot was read.
  unfoldable pub better_root : Result RootEntry → ℕ → Option RootEntry → Option RootEntry
  better_root (ok e) slot best =
      if not (masked e.gen root_slots == slot)
      then best
      else if is_newer e best
      then some e
      else best
  better_root (err e) slot best = best
  better_root stuck slot best = best

  module _ {D : Type 0} (dev : BlockDev D) where
    unfoldable pub root_from : ℕ → ℕ → Option RootEntry → Run D (Option RootEntry)
    unfolding better_root
    root_from zero slot best = pure best
    root_from (suc left) slot best = do
      b ← dev.read slot
      root_from left (slot + 1) (better_root (decode_root b) slot best)

    -- Newest valid root entry across the root slots, if any.
    unfoldable pub read_root : Run D (Option RootEntry)
    unfolding root_from
    read_root d = root_from (min root_slots (dev.block_count d)) 0 none d

    abbrev pub sealed_or : Bool → Run D Bool → Run D Bool
    sealed_or true rest = pure true
    sealed_or false rest = rest

    unfoldable pub any_sealed_from : ℕ → ℕ → Run D Bool
    any_sealed_from zero lba = pure false
    any_sealed_from (suc left) lba =
        let rest = any_sealed_from left (lba + 1) in
        (do b ← dev.read lba; sealed_or (block_is_sealed c b) rest)

    -- The whole-file scan of the genesis rule.
    unfoldable pub any_sealed_block : Run D Bool
    unfolding any_sealed_from
    any_sealed_block d = any_sealed_from (dev.block_count d) 0 d

  unfoldable pub append_root :
      {A B : Type 0} → BlockDev A → BlockDev B → RootEntry → Run (Mirror A B) (Unit {0})
  append_root devA devB e m = elim (encode_root e) [
    | ok block ↦ write_verified devA devB (masked e.gen root_slots) block m
    | err x ↦ (err x, m)
    | stuck ↦ (stuck, m)
  ]
