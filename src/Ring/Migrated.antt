-- ===== src/Ring/Migrated.antt =====
-- src/ring.rs, `RootEntry`: encoding fits one block, and decoding gives the entry back.
use manifestus.Base.{
  ℕ, ◌%◌, ◌<◌, ◌≡◌, ◌∙◌, ap, Option, some, List, length, bytes_eq, arith, ◌==◌, true,
}
use manifestus.Error.{ok, and_then}
use manifestus.Block.{Block}
use manifestus.Ring.Codec.{
  Codec, IsLawful, IsWritten, ReadsAs, VsfType, hp, d, u, u0, u3, u4, u5, u6, u7, e6, v, other,
  as_u64, word,
}
use manifestus.Ring.Sealed.{sealed_block}
use manifestus.Ring.Readback.{absorb_all, AllWritten, decode_doc-sealed}
use manifestus.Ring.Entry.{to32}
use manifestus.Ring.Size.{padding_of, written, body_start_small, encode_doc-sizes}
use manifestus.Ring.Root.{
  RootEntry, RootFields, schema_root, no_root_fields, root_fields_of, absorb_root_as, absorb_root,
  assemble_root, encode_root, decode_root,
}

absorb_root-number :
    (name : List ℕ) (w : VsfType) (n : ℕ) (acc : RootFields)
    → as_u64 w ≡ some n
    → absorb_root name w acc ≡ absorb_root name (u n) acc
unfolding absorb_root absorb_root_as as_u64
absorb_root-number name (hp h) n acc r = absurd (cc r)
absorb_root-number name (d s) n acc r = absurd (cc r)
absorb_root-number name (e6 t) n acc r = absurd (cc r)
absorb_root-number name (v t b) n acc r = absurd (cc r)
absorb_root-number name (other t) n acc r = absurd (cc r)
absorb_root-number name (u m) n acc r = ap (λ (o : Option ℕ). absorb_root_as o name (u m) acc) r
absorb_root-number name (u0 b) n acc r = ap (λ (o : Option ℕ). absorb_root_as o name (u0 b) acc) r
absorb_root-number name (u3 m) n acc r = ap (λ (o : Option ℕ). absorb_root_as o name (u3 m) acc) r
absorb_root-number name (u4 m) n acc r = ap (λ (o : Option ℕ). absorb_root_as o name (u4 m) acc) r
absorb_root-number name (u5 m) n acc r = ap (λ (o : Option ℕ). absorb_root_as o name (u5 m) acc) r
absorb_root-number name (u6 m) n acc r = ap (λ (o : Option ℕ). absorb_root_as o name (u6 m) acc) r
absorb_root-number name (u7 m) n acc r = ap (λ (o : Option ℕ). absorb_root_as o name (u7 m) acc) r

absorb_root-ReadsAs :
    (name : List ℕ) (x w : VsfType) (acc : RootFields)
    → ReadsAs x w
    → IsWritten x
    → absorb_root name w acc ≡ absorb_root name x acc
absorb_root-ReadsAs name (hp h) w acc r i = ap (λ (y : VsfType). absorb_root name y acc) r
absorb_root-ReadsAs name (d s) w acc r i = ap (λ (y : VsfType). absorb_root name y acc) r
absorb_root-ReadsAs name (e6 t) w acc r i = ap (λ (y : VsfType). absorb_root name y acc) r
absorb_root-ReadsAs name (u n) w acc r i = absorb_root-number name w n acc r
absorb_root-ReadsAs name (u0 b) w acc r i = absurd r
absorb_root-ReadsAs name (u3 n) w acc r i = absurd r
absorb_root-ReadsAs name (u4 n) w acc r i = absurd r
absorb_root-ReadsAs name (u5 n) w acc r i = absurd r
absorb_root-ReadsAs name (u6 n) w acc r i = absurd r
absorb_root-ReadsAs name (u7 n) w acc r i = absurd r
absorb_root-ReadsAs name (v t b) w acc r i = ap (λ (y : VsfType). absorb_root name y acc) r
absorb_root-ReadsAs name (other t) w acc r i = absurd r

-- The root entries the engine writes: a hash of 32 bytes, 64-bit counters, an exponent of 8 bits.
pub record IsSoundRoot (e : RootEntry) : Type 0 where
  pub prev_32 : length e.prev_hash ≡ 32
  pub ring_byte : e.ring_log2 < 256
  pub gen_word : e.gen < word
  pub at_word : e.at < word
  pub was_word : e.was < word
  pub since_word : e.since < word
  pub band_word : e.residences < word
  pub stay_word : e.residency < word

root_fields_of-AllWritten : (e : RootEntry) → IsSoundRoot e → AllWritten (root_fields_of e)
unfolding root_fields_of
root_fields_of-AllWritten e s = (
  omega arith,
  s.gen_word,
  (
    omega arith,
    s.prev_32,
    (
      omega arith,
      omega (arith, s.ring_byte),
      (
        omega arith,
        s.at_word,
        (
          omega arith,
          s.was_word,
          (
            omega arith,
            s.since_word,
            (omega arith, s.band_word, (omega arith, s.stay_word, (omega arith, tt, tt))),
          ),
        ),
      ),
    ),
  ),
)

absorb_all-root_fields_of :
    (e : RootEntry)
    → IsSoundRoot e
    → and_then (absorb_all absorb_root (root_fields_of e) no_root_fields) assemble_root ≡ ok e
unfolding absorb_all absorb_root absorb_root_as root_fields_of bytes_eq to32 as_u64 assemble_root
absorb_all-root_fields_of e s =
    let ring : e.ring_log2 % 256 ≡ e.ring_log2 = omega (arith, s.ring_byte) in
    let whole : (length e.prev_hash == 32) ≡ true = ground (arith, s.prev_32) in rw (whole, ring)

module _ (c : Codec) (lawful : IsLawful c) where
  -- Under a codec that obeys the laws every sound root entry encodes, and the block decodes to the
  -- entry.
  pub decode_root-encode_root :
      (e : RootEntry)
      → IsSoundRoot e
      → (b : Block) × (encode_root c e ≡ ok b) × (decode_root c b ≡ ok e)
  unfolding encode_root decode_root root_fields_of written
  decode_root-encode_root e s = (
    sealed_block c (written c schema_root (root_fields_of e)),
    encode_doc-sizes c lawful schema_root (root_fields_of e) (omega arith)
        (root_fields_of-AllWritten e s) (omega (arith, body_start_small c lawful, s.prev_32)),
    ap (λ r. and_then r assemble_root)
          (decode_doc-sealed c lawful absorb_root absorb_root-ReadsAs schema_root (root_fields_of e)
            (padding_of c schema_root (root_fields_of e)) no_root_fields (omega arith)
            (root_fields_of-AllWritten e s))
        ∙ absorb_all-root_fields_of e s,
  )
