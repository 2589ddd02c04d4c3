-- ===== src/Ring/Entry.antt =====
-- src/ring.rs, `SpineEntry`: the commit object, its block, and the three-way classification.
use manifestus.Base.{
  ℕ, ◌+◌, ◌-◌, ◌%◌, Bool, false, ◌||◌, not, Option, none, some, List, [], ◌∷◌, drop, take, length,
  bytes_eq, leb, ltb, ◌==◌, if◌then◌else◌, slots, masked,
}
use manifestus.Error.{Result, ok, err, stuck, and_then, corrupt}
use manifestus.Block.{Block, zero_block}
use manifestus.Ring.Codec.{Codec, VsfType, hp, u, e6, as_u64, word, text, ℤ}
use manifestus.Ring.Document.{Field, magic, encode_doc, decode_doc}

-- Rollback fence depth.
abbrev pub fence_k : ℕ
fence_k = 4

abbrev pub schema : List ℕ
schema = text "manifestus.spine"

pub record SpineEntry : Type 0 where
  pub gen : ℕ
  pub prev_hash : List ℕ
  pub ring_log2 : ℕ
  pub tract_blocks : ℕ
  pub hamt_hash : List ℕ
  pub hamt_lba : ℕ
  pub plow : ℕ
  pub reap : Option ℕ
  pub live : ℕ
  pub eagle_time : ℤ

-- The local variables of the field loop.
pub record Fields : Type 0 where
  pub gen : Option ℕ
  pub prev : Option (List ℕ)
  pub ring : Option ℕ
  pub tract : Option ℕ
  pub hamt : Option (List ℕ)
  pub hamtat : Option ℕ
  pub plow : Option ℕ
  pub live : Option ℕ
  pub time : Option ℤ
  pub reap : Option ℕ

abbrev pub no_fields : Fields
no_fields = record {
  gen = none;
  prev = none;
  ring = none;
  tract = none;
  hamt = none;
  hamtat = none;
  plow = none;
  live = none;
  time = none;
  reap = none;
}

abbrev pub reap_field : Option ℕ → List Field
reap_field none = []
reap_field (some r) = (text "reap", u r) ∷ []

unfoldable pub fields_of : SpineEntry → List Field
fields_of e =
    (text "gen", u e.gen)
    ∷ (text "prev", hp e.prev_hash)
    ∷ (text "ring", u e.ring_log2)
    ∷ (text "tract", u e.tract_blocks)
    ∷ (text "hamt", hp e.hamt_hash)
    ∷ (text "hamtat", u e.hamt_lba)
    ∷ (text "plow", u e.plow)
    ∷ (text "live", u e.live)
    ∷ (text "time", e6 e.eagle_time)
    ∷ reap_field e.reap

-- `to32`
unfoldable pub to32 : List ℕ → Result (List ℕ)
to32 h = if length h == 32 then ok h else err (corrupt "hash length")

-- A number under a name, by what `as_u64` says; any other type is skipped.
abbrev pub number : Option ℕ → (ℕ → Fields) → Fields → Result Fields
number (some n) found fs = ok (found n)
number none found fs = ok fs

abbrev pub hash_value : VsfType → (List ℕ → Fields) → Fields → Result Fields
hash_value (hp h) found fs = and_then (to32 h) (λ k. ok (found k))
hash_value _ found fs = ok fs

abbrev pub time_value : VsfType → Fields → Result Fields
time_value (e6 t) fs = ok (record fs { time = some t })
time_value _ fs = ok fs

-- The match of the field loop: an unknown name or an unexpected type is skipped.
unfoldable pub absorb_as : Option ℕ → List ℕ → VsfType → Fields → Result Fields
absorb_as o name x fs =
    if bytes_eq name (text "gen")
    then number o (λ n. record fs { gen = some n }) fs
    else if bytes_eq name (text "prev")
    then hash_value x (λ h. record fs { prev = some h }) fs
    else if bytes_eq name (text "ring")
    then number o (λ n. record fs { ring = some (n % 256) }) fs
    else if bytes_eq name (text "tract")
    then number o (λ n. record fs { tract = some n }) fs
    else if bytes_eq name (text "hamt")
    then hash_value x (λ h. record fs { hamt = some h }) fs
    else if bytes_eq name (text "hamtat")
    then number o (λ n. record fs { hamtat = some n }) fs
    else if bytes_eq name (text "plow")
    then number o (λ n. record fs { plow = some n }) fs
    else if bytes_eq name (text "reap")
    then number o (λ n. record fs { reap = some n }) fs
    else if bytes_eq name (text "live")
    then number o (λ n. record fs { live = some n }) fs
    else if bytes_eq name (text "time")
    then time_value x fs
    else ok fs

unfoldable pub absorb : List ℕ → VsfType → Fields → Result Fields
absorb name x fs = absorb_as (as_u64 x) name x fs

-- `.ok_or_else(|| Corrupt(..))?`
abbrev pub required : {A B : Type 0} → Option A → (A → Result B) → Result B
required none f = err (corrupt "missing field")
required (some a) f = f a

unfoldable pub assemble : Fields → Result SpineEntry
assemble fs = required fs.gen (λ gen. required fs.prev (λ prev. required fs.ring (λ ring.
    required fs.tract (λ tract. required fs.hamt (λ hamt. required fs.hamtat (λ hamtat.
      required fs.plow (λ plow. required fs.live (λ live. required fs.time (λ time. ok (record {
        gen = gen;
        prev_hash = prev;
        ring_log2 = ring;
        tract_blocks = tract;
        hamt_hash = hamt;
        hamt_lba = hamtat;
        plow = plow;
        reap = fs.reap;
        live = live;
        eagle_time = time;
      }))))))))))

-- reap ≤ plow ≤ reap + len, by subtraction.
abbrev pub cursors_broken : Option ℕ → ℕ → ℕ → Bool
cursors_broken none plow len = false
cursors_broken (some reap) plow len = ltb plow reap || ltb len (plow - reap)

unfoldable pub check_geometry : SpineEntry → Result SpineEntry
check_geometry e =
    if e.ring_log2 == 0 || ltb 32 e.ring_log2
    then err (corrupt "insane ring exponent")
    else if e.tract_blocks == 0
    then err (corrupt "tract of zero blocks")
    else if cursors_broken e.reap e.plow e.tract_blocks
    then err (corrupt "cursors break")
    else if leb word (e.plow + e.tract_blocks)
    then err (corrupt "overflows the monotone domain")
    else ok e

-- This generation's contribution to the rollback fence.
unfoldable pub fence_budget : SpineEntry → ℕ
fence_budget e = elim e.reap [ some r ↦ r + e.tract_blocks | none ↦ e.plow ]

pub data Classified : Type 0 where
  valid : SpineEntry → Classified
  empty : Classified
  corrupted : Classified

module _ (c : Codec) where
  unfoldable pub encode : SpineEntry → Result Block
  encode e = encode_doc c schema (fields_of e)

  unfoldable pub decode : Block → Result SpineEntry
  decode block =
      and_then (decode_doc c absorb schema no_fields block)
        (λ fs. and_then (assemble fs) check_geometry)

  -- hp of this entry's encoded body: what the next entry's `prev_hash` must be. `parse` of the own
  -- header leaves the pointer behind the hash.
  unfoldable pub body_hash : SpineEntry → Result (List ℕ)
  body_hash e = and_then (encode e) (λ block. elim (c.parse block 4) [
    | some (x, ptr) ↦ ok (c.hash (drop (ptr + 1) block))
    | none ↦ ok (c.hash (drop (4 + 1) block))
  ])

  -- Three-way classification of a block read from `slot`; without an exponent the entry's own.
  unfoldable pub classify : Block → ℕ → Option ℕ → Classified
  classify block slot ring_log2 =
      if bytes_eq block zero_block
      then empty
      else if not (bytes_eq (take 4 block) magic)
      then corrupted
      else elim (decode block) [
        | ok e ↦
            let r : ℕ = elim ring_log2 [ some r ↦ r | none ↦ e.ring_log2 ] in
            if not (e.ring_log2 == r)
            then corrupted
            else if not (masked e.gen (slots r) == slot)
            then corrupted
            else valid e
        | err x ↦ corrupted
        | stuck ↦ corrupted
      ]
