-- ===== src/Ring/Roundtrip.antt =====
-- src/ring.rs, `SpineEntry`: encoding fits, and decoding gives the entry back.
use manifestus.Base.{
  ℕ, ◌+◌, ◌%◌, ◌≤◌, ◌<◌, ◌≡◌, refl, ap, true, false, ◌||◌, Option, none, some, List, length,
  bytes_eq, if◌then◌else◌, ◌==◌, ltb, leb, arith,
}
use manifestus.Error.{ok, err, corrupt}
use manifestus.Ring.Codec.{
  IsWritten, ReadsAs, VsfType, hp, d, u, u0, u3, u4, u5, u6, u7, e6, v, other, as_u64, word,
}
use manifestus.Ring.Readback.{absorb_all}
use manifestus.Ring.Entry.{
  SpineEntry, Fields, no_fields, reap_field, fields_of, to32, absorb, absorb_as, assemble,
  cursors_broken, check_geometry,
}

-- A number is taken as itself, whatever its size class.
absorb-number :
    (name : List ℕ) (w : VsfType) (n : ℕ) (acc : Fields)
    → as_u64 w ≡ some n
    → absorb name w acc ≡ absorb name (u n) acc
unfolding absorb absorb_as as_u64
absorb-number name (hp h) n acc r = absurd (cc r)
absorb-number name (d s) n acc r = absurd (cc r)
absorb-number name (e6 t) n acc r = absurd (cc r)
absorb-number name (v t b) n acc r = absurd (cc r)
absorb-number name (other t) n acc r = absurd (cc r)
absorb-number name (u m) n acc r = ap (λ (o : Option ℕ). absorb_as o name (u m) acc) r
absorb-number name (u0 b) n acc r = ap (λ (o : Option ℕ). absorb_as o name (u0 b) acc) r
absorb-number name (u3 m) n acc r = ap (λ (o : Option ℕ). absorb_as o name (u3 m) acc) r
absorb-number name (u4 m) n acc r = ap (λ (o : Option ℕ). absorb_as o name (u4 m) acc) r
absorb-number name (u5 m) n acc r = ap (λ (o : Option ℕ). absorb_as o name (u5 m) acc) r
absorb-number name (u6 m) n acc r = ap (λ (o : Option ℕ). absorb_as o name (u6 m) acc) r
absorb-number name (u7 m) n acc r = ap (λ (o : Option ℕ). absorb_as o name (u7 m) acc) r

-- A value that reads as a written one is taken as that one.
pub absorb-ReadsAs :
    (name : List ℕ) (x w : VsfType) (acc : Fields)
    → ReadsAs x w
    → IsWritten x
    → absorb name w acc ≡ absorb name x acc
absorb-ReadsAs name (hp h) w acc r i = ap (λ (y : VsfType). absorb name y acc) r
absorb-ReadsAs name (d s) w acc r i = ap (λ (y : VsfType). absorb name y acc) r
absorb-ReadsAs name (e6 t) w acc r i = ap (λ (y : VsfType). absorb name y acc) r
absorb-ReadsAs name (u n) w acc r i = absorb-number name w n acc r
absorb-ReadsAs name (u0 b) w acc r i = absurd r
absorb-ReadsAs name (u3 n) w acc r i = absurd r
absorb-ReadsAs name (u4 n) w acc r i = absurd r
absorb-ReadsAs name (u5 n) w acc r i = absurd r
absorb-ReadsAs name (u6 n) w acc r i = absurd r
absorb-ReadsAs name (u7 n) w acc r i = absurd r
absorb-ReadsAs name (v t b) w acc r i = ap (λ (y : VsfType). absorb name y acc) r
absorb-ReadsAs name (other t) w acc r i = absurd r

abbrev pub ReapWithin : Option ℕ → ℕ → ℕ → Type 0
ReapWithin none plow len = Unit {0}
ReapWithin (some r) plow len = (r ≤ plow) × (plow ≤ r + len)

-- The entries that the engine commits: hashes of 32 bytes, 64-bit counters, an exponent between 1
-- and 32, a tract that is not empty, cursors within one lap, a plow that stays clear of overflow.
pub record IsSound (e : SpineEntry) : Type 0 where
  pub prev_32 : length e.prev_hash ≡ 32
  pub hamt_32 : length e.hamt_hash ≡ 32
  pub gen_word : e.gen < word
  pub ring_pos : 0 < e.ring_log2
  pub ring_small : e.ring_log2 ≤ 32
  pub tract_pos : 0 < e.tract_blocks
  pub hamt_word : e.hamt_lba < word
  pub live_word : e.live < word
  pub cursors : ReapWithin e.reap e.plow e.tract_blocks
  pub no_overflow : e.plow + e.tract_blocks < word

abbrev pub all_fields : SpineEntry → Fields
all_fields e = record {
  gen = some e.gen;
  prev = some e.prev_hash;
  ring = some e.ring_log2;
  tract = some e.tract_blocks;
  hamt = some e.hamt_hash;
  hamtat = some e.hamt_lba;
  plow = some e.plow;
  live = some e.live;
  time = some e.eagle_time;
  reap = e.reap;
}

length-32 : (h : List ℕ) → length h ≡ 32 → (length h == 32) ≡ true
length-32 h e = ground arith

absorb_all-reap_field :
    (o : Option ℕ) (fs : Fields)
    → fs.reap ≡ none
    → absorb_all absorb (reap_field o) fs ≡ ok (record fs { reap = o })
unfolding absorb_all absorb absorb_as bytes_eq as_u64
absorb_all-reap_field none fs h = ap (λ (x : Option ℕ). ok (record fs { reap = x })) h
absorb_all-reap_field (some r) fs h = refl

pub absorb_all-fields_of :
    (e : SpineEntry)
    → length e.prev_hash ≡ 32
    → length e.hamt_hash ≡ 32
    → e.ring_log2 ≤ 32
    → absorb_all absorb (fields_of e) no_fields ≡ ok (all_fields e)
unfolding absorb_all absorb absorb_as fields_of bytes_eq to32 as_u64
absorb_all-fields_of e p h r =
    let ring : e.ring_log2 % 256 ≡ e.ring_log2 = omega arith in
    rw (length-32 e.prev_hash p, length-32 e.hamt_hash h, absorb_all-reap_field e.reap, ring)

pub assemble-all_fields : (e : SpineEntry) → assemble (all_fields e) ≡ ok e
unfolding assemble
assemble-all_fields e = refl

cursors_hold :
    (o : Option ℕ) (plow len : ℕ) → ReapWithin o plow len → cursors_broken o plow len ≡ false
cursors_hold none plow len h = refl
cursors_hold (some r) plow len h = ground arith

pub check_geometry-IsSound : (e : SpineEntry) → IsSound e → check_geometry e ≡ ok e
unfolding check_geometry
check_geometry-IsSound e s = rw (cursors_hold e.reap e.plow e.tract_blocks s.cursors) (geometry e s)
  where
    geometry :
        (e : SpineEntry)
        → IsSound e
        → (if e.ring_log2 == 0 || ltb 32 e.ring_log2
            then err (corrupt "insane ring exponent")
            else if e.tract_blocks == 0
            then err (corrupt "tract of zero blocks")
            else if leb word (e.plow + e.tract_blocks)
            then err (corrupt "overflows the monotone domain")
            else ok e)
          ≡ ok e
    geometry e s = ground (arith, s.ring_pos, s.ring_small, s.tract_pos, s.no_overflow)
