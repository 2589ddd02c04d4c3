-- ===== src/Hamt/Written.antt =====
-- src/hamt.rs: every block of the index that the engine writes fits, is sealed, and decodes to the
-- document it was written for.
use manifestus.Base.{
  ℕ, suc, ◌+◌, ◌≤◌, ◌<◌, ◌≡◌, refl, ap, true, Option, some, List, [], ◌∷◌, length, bytes_eq, ◌==◌,
  arith,
}
use mathlib.Core.List.{append_assoc}
use manifestus.Error.{ok, and_then}
use manifestus.Block.{Block}
use manifestus.Ring.Codec.{
  Codec, IsLawful, IsWritten, ReadsAs, VsfType, hp, d, u, u0, u3, u4, u5, u6, u7, e6, v, other,
  as_u64, text, word,
}
use manifestus.Ring.Document.{Field, field_bytes, sealed_hp, read_fields}
use manifestus.Ring.Entry.{to32}
use manifestus.Ring.Sealed.{sealed_block, body_of}
use manifestus.Ring.Readback.{
  AllWritten, absorb_all, body_at, parse-sealed, parse_schema-sealed, read_fields-sealed,
  check_seal-sealed,
}
use manifestus.Ring.Size.{padding_of, written, body_start_small, encode_doc-sizes}
use manifestus.Hamt.Leaf.{
  schema_lone, schema_furrow, lone_capacity, furrow_capacity, encode_lone, encode_furrow,
}
use manifestus.Hamt.Doc.{
  TractDoc, lone, furrow, DocFields, no_doc_fields, absorb_doc, absorb_doc_as, assemble_doc,
  doc_schema, decode_doc,
}

-- A number is taken as itself, whatever its size class.
absorb_doc-number :
    (name : List ℕ) (w : VsfType) (n : ℕ) (acc : DocFields)
    → as_u64 w ≡ some n
    → absorb_doc name w acc ≡ absorb_doc name (u n) acc
unfolding absorb_doc absorb_doc_as as_u64
absorb_doc-number name (hp h) n acc r = absurd (cc r)
absorb_doc-number name (d s) n acc r = absurd (cc r)
absorb_doc-number name (e6 t) n acc r = absurd (cc r)
absorb_doc-number name (v t b) n acc r = absurd (cc r)
absorb_doc-number name (other t) n acc r = absurd (cc r)
absorb_doc-number name (u m) n acc r = ap (λ (o : Option ℕ). absorb_doc_as o name (u m) acc) r
absorb_doc-number name (u0 b) n acc r = ap (λ (o : Option ℕ). absorb_doc_as o name (u0 b) acc) r
absorb_doc-number name (u3 m) n acc r = ap (λ (o : Option ℕ). absorb_doc_as o name (u3 m) acc) r
absorb_doc-number name (u4 m) n acc r = ap (λ (o : Option ℕ). absorb_doc_as o name (u4 m) acc) r
absorb_doc-number name (u5 m) n acc r = ap (λ (o : Option ℕ). absorb_doc_as o name (u5 m) acc) r
absorb_doc-number name (u6 m) n acc r = ap (λ (o : Option ℕ). absorb_doc_as o name (u6 m) acc) r
absorb_doc-number name (u7 m) n acc r = ap (λ (o : Option ℕ). absorb_doc_as o name (u7 m) acc) r

absorb_doc-ReadsAs :
    (name : List ℕ) (x w : VsfType) (acc : DocFields)
    → ReadsAs x w
    → IsWritten x
    → absorb_doc name w acc ≡ absorb_doc name x acc
absorb_doc-ReadsAs name (hp h) w acc r i = ap (λ (y : VsfType). absorb_doc name y acc) r
absorb_doc-ReadsAs name (d s) w acc r i = ap (λ (y : VsfType). absorb_doc name y acc) r
absorb_doc-ReadsAs name (e6 t) w acc r i = ap (λ (y : VsfType). absorb_doc name y acc) r
absorb_doc-ReadsAs name (u n) w acc r i = absorb_doc-number name w n acc r
absorb_doc-ReadsAs name (u0 b) w acc r i = absurd r
absorb_doc-ReadsAs name (u3 n) w acc r i = absurd r
absorb_doc-ReadsAs name (u4 n) w acc r i = absurd r
absorb_doc-ReadsAs name (u5 n) w acc r i = absurd r
absorb_doc-ReadsAs name (u6 n) w acc r i = absurd r
absorb_doc-ReadsAs name (u7 n) w acc r i = absurd r
absorb_doc-ReadsAs name (v t b) w acc r i = ap (λ (y : VsfType). absorb_doc name y acc) r
absorb_doc-ReadsAs name (other t) w acc r i = absurd r

pub length-32 : (h : List ℕ) → length h ≡ 32 → (length h == 32) ≡ true
length-32 h e = ground arith

module _ (c : Codec) (lawful : IsLawful c) where
  -- A block that carries this document: it decodes to it, under the seal that `put` records.
  abbrev pub Carries : Block → TractDoc → Type 0
  Carries block doc =
      (decode_doc c block ≡ ok doc) × (h : List ℕ) × (sealed_hp c block ≡ some h) × (length h ≡ 32)

  doc_schema-written :
      (schema : List ℕ) (fs : List Field)
      → length schema ≤ 24
      → doc_schema c (sealed_block c (written c schema fs))
        ≡ ok (schema, body_at c lawful (written c schema fs) + length (c.flatten (d schema)))
  unfolding doc_schema written body_of
  doc_schema-written schema fs small =
      let body = written c schema fs in
      let whole = append_assoc (c.flatten (d schema)) (field_bytes c fs) _ in
      rw (
        parse-sealed c lawful body,
        doc_schema,
        parse_schema-sealed c lawful schema _ small body whole,
      )

  pub decode_doc-written :
      (schema : List ℕ) (fs : List Field) (doc : TractDoc)
      → length schema ≤ 24
      → AllWritten fs
      → and_then (absorb_all absorb_doc fs no_doc_fields) (assemble_doc schema) ≡ ok doc
      → Carries (sealed_block c (written c schema fs)) doc
  unfolding decode_doc body_of written
  decode_doc-written schema fs doc small a e = (
    rw (doc_schema-written schema fs small, fields) e,
    c.hash body,
    (check_seal-sealed c lawful body).1,
    lawful.length-hash body,
  )
    where
      body : List ℕ
      body = written c schema fs

      fields :
          read_fields c absorb_doc
            (suc (length (sealed_block c body)))
            (sealed_block c body)
            (body_at c lawful body + length (c.flatten (d schema)))
            no_doc_fields
          ≡ absorb_all absorb_doc fs no_doc_fields
      fields =
          read_fields-sealed c lawful absorb_doc absorb_doc-ReadsAs schema fs
            (padding_of c schema fs) no_doc_fields a (sealed_block c body) refl

  -- Under a codec that obeys the laws, a value within the capacity of a lone leaf is written into one
  -- block, and that block decodes to the key and the value.
  pub decode_doc-encode_lone :
      (key value : List ℕ)
      → length key ≡ 32
      → length value ≤ lone_capacity c
      → (b : Block) × (encode_lone c key value ≡ ok b) × Carries b (lone key value)
  unfolding encode_lone lone_capacity absorb_all absorb_doc absorb_doc_as assemble_doc bytes_eq to32
  decode_doc-encode_lone key value k cap =
      let fs : List Field = (text "key", hp key) ∷ (text "v", v b'r' value) ∷ [] in
      let start = body_start_small c lawful in
      let a : AllWritten fs = (omega arith, k, (omega arith, omega arith, tt)) in
      (
        sealed_block c (written c schema_lone fs),
        encode_doc-sizes c lawful schema_lone fs (omega arith) a (omega (arith, start, k)),
        decode_doc-written schema_lone fs (lone key value) (omega arith) a (rw (length-32 key k)),
      )

  -- Under a codec that obeys the laws, a furrow's payload within its capacity is written into one
  -- block, and that block decodes to the owner's key, the index and the payload.
  pub decode_doc-encode_furrow :
      (key : List ℕ) (index : ℕ) (payload : List ℕ)
      → length key ≡ 32
      → index < word
      → length payload ≤ furrow_capacity c
      → (b : Block) × (encode_furrow c key index payload ≡ ok b)
        × Carries b (furrow key index payload)
  unfolding encode_furrow furrow_capacity absorb_all absorb_doc absorb_doc_as assemble_doc bytes_eq
      to32 as_u64
  decode_doc-encode_furrow key index payload k i cap =
      let fs : List Field =
        (text "key", hp key) ∷ (text "i", u index) ∷ (text "v", v b'r' payload) ∷ [] in
      let start = body_start_small c lawful in
      let a : AllWritten fs = (omega arith, k, (omega arith, i, (omega arith, omega arith, tt))) in
      (
        sealed_block c (written c schema_furrow fs),
        encode_doc-sizes c lawful schema_furrow fs (omega arith) a (omega (arith, start, k)),
        decode_doc-written schema_furrow fs (furrow key index payload) (omega arith) a
            (rw (length-32 key k)),
      )
