-- ===== src/Ring/Wire.antt =====
-- src/ring.rs, `SpineEntry`: every entry the engine commits fits one block, decodes to itself, and
-- classifies Valid at its own slot.
use manifestus.Base.{
  ℕ, ◌+◌, ◌≤◌, ◌<◌, ◌≡◌, refl, sym, ap, true, false, Option, none, some, List, take, replicate,
  bytes_eq, ◌==◌, ==_iff, slots, masked, arith,
}
use manifestus.Error.{ok}
use manifestus.Block.{Block, zero_block}
use manifestus.Ring.Codec.{Codec, IsLawful, word}
use manifestus.Ring.Document.{magic}
use manifestus.Ring.Sealed.{sealed_block}
use manifestus.Ring.Readback.{AllWritten, parse-sealed, drop-sealed, decode_doc-sealed}
use manifestus.Ring.Size.{sizes, padding_of, written, body_start_small, encode_doc-sizes}
use manifestus.Ring.Entry.{
  SpineEntry, schema, no_fields, reap_field, fields_of, absorb, valid, encode, decode, body_hash,
  classify,
}
use manifestus.Ring.Roundtrip.{
  IsSound, ReapWithin, absorb-ReadsAs, absorb_all-fields_of, assemble-all_fields,
  check_geometry-IsSound,
}

reap_field-AllWritten :
    (o : Option ℕ) (plow len : ℕ)
    → ReapWithin o plow len
    → plow + len < word
    → AllWritten (reap_field o)
reap_field-AllWritten none plow len h b = tt
reap_field-AllWritten (some r) plow len h b = (omega arith, omega arith, tt)

fields_of-AllWritten : (e : SpineEntry) → IsSound e → AllWritten (fields_of e)
unfolding fields_of
fields_of-AllWritten e s = (
  omega arith,
  s.gen_word,
  (
    omega arith,
    s.prev_32,
    (
      omega arith,
      omega (arith, s.ring_small),
      (
        omega arith,
        omega (arith, s.no_overflow),
        (
          omega arith,
          s.hamt_32,
          (
            omega arith,
            s.hamt_word,
            (
              omega arith,
              omega (arith, s.no_overflow),
              (
                omega arith,
                s.live_word,
                (
                  omega arith,
                  tt,
                  reap_field-AllWritten e.reap e.plow e.tract_blocks s.cursors s.no_overflow,
                ),
              ),
            ),
          ),
        ),
      ),
    ),
  ),
)

fields_of-sizes : (e : SpineEntry) → IsSound e → sizes (fields_of e) ≤ 400
unfolding fields_of
fields_of-sizes e s = go e.reap
  where
    go : (o : Option ℕ) → sizes (fields_of (record e { reap = o })) ≤ 400
    go none = omega (arith, s.prev_32, s.hamt_32)
    go (some r) = omega (arith, s.prev_32, s.hamt_32)

module _ (c : Codec) (lawful : IsLawful c) where
  pub body : SpineEntry → List ℕ
  body e = written c schema (fields_of e)

  -- Encoding a sound entry never overflows the block.
  pub encode-IsSound : (e : SpineEntry) → IsSound e → encode c e ≡ ok (sealed_block c (body e))
  unfolding encode body
  encode-IsSound e s =
      encode_doc-sizes c lawful schema (fields_of e) (omega arith) (fields_of-AllWritten e s)
        (omega (arith, body_start_small c lawful, fields_of-sizes e s))

  pub decode-sealed : (e : SpineEntry) → IsSound e → decode c (sealed_block c (body e)) ≡ ok e
  unfolding decode body written
  decode-sealed e s =
      rw
        (
          decode_doc-sealed c lawful absorb absorb-ReadsAs schema (fields_of e)
              (padding_of c schema (fields_of e)) no_fields (omega arith)
              (fields_of-AllWritten e s),
          absorb_all-fields_of e s.prev_32 s.hamt_32 s.ring_small,
          assemble-all_fields e,
        )
        (check_geometry-IsSound e s)

  -- Under a codec that obeys the laws every sound entry encodes, and the block decodes to the
  -- entry.
  pub decode-encode :
      (e : SpineEntry) → IsSound e → (b : Block) × (encode c e ≡ ok b) × (decode c b ≡ ok e)
  decode-encode e s = (sealed_block c (body e), encode-IsSound e s, decode-sealed e s)

  sealed_not_zero : (x : List ℕ) → bytes_eq (sealed_block c x) zero_block ≡ false
  unfolding bytes_eq sealed_block zero_block replicate
  sealed_not_zero x = refl

  sealed_magic : (x : List ℕ) → bytes_eq (take 4 (sealed_block c x)) magic ≡ true
  unfolding bytes_eq sealed_block
  sealed_magic x = refl

  same_number : (n : ℕ) → (n == n) ≡ true
  same_number n = (==_iff n n).1 refl

  -- Under a codec that obeys the laws a sound entry's block classifies Valid at the slot of its
  -- generation.
  pub classify-sealed :
      (e : SpineEntry) (slot : ℕ)
      → IsSound e
      → slot ≡ masked e.gen (slots e.ring_log2)
      → classify c (sealed_block c (body e)) slot (some e.ring_log2) ≡ valid e
  unfolding classify
  classify-sealed e slot s at =
      let here : (masked e.gen (slots e.ring_log2) == slot) ≡ true =
        (==_iff (masked e.gen (slots e.ring_log2)) slot).1 (sym at) in
      rw (
        sealed_not_zero (body e),
        sealed_magic (body e),
        decode-sealed e s,
        same_number e.ring_log2,
        here,
      )

  -- Under a codec that obeys the laws a sound entry encodes into a block, and the block classifies
  -- Valid at the slot of its generation.
  pub classify-encode :
      (e : SpineEntry) (slot : ℕ)
      → IsSound e
      → slot ≡ masked e.gen (slots e.ring_log2)
      → (b : Block) × (encode c e ≡ ok b) × (classify c b slot (some e.ring_log2) ≡ valid e)
  classify-encode e slot s at =
      (sealed_block c (body e), encode-IsSound e s, classify-sealed e slot s at)

  pub body_hash-IsSound : (e : SpineEntry) → IsSound e → body_hash c e ≡ ok (c.hash (body e))
  unfolding body_hash
  body_hash-IsSound e s =
      rw (encode-IsSound e s, parse-sealed c lawful (body e))
        (ap (λ (b : List ℕ). ok (c.hash b)) (drop-sealed c lawful (body e)))
