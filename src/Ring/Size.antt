-- ===== src/Ring/Size.antt =====
-- src/ring.rs and src/hamt.rs: the room that a document's fields take, and a document that fits its
-- block is written whole.
use manifestus.Base.{ℕ, ◌+◌, ◌-◌, ◌≤◌, ◌≡◌, refl, List, [], ◌∷◌, ◌++◌, length, length-append, arith}
use manifestus.Error.{ok}
use manifestus.Block.{block_bytes}
use manifestus.Ring.Codec.{Codec, IsLawful, hp, d, carried}
use manifestus.Ring.Document.{Field, zero_hash, field_bytes, body_start, hp_len, encode_doc}
use manifestus.Ring.Sealed.{body_of, sealed_block, encode_doc-eq}
use manifestus.Ring.Readback.{AllWritten}

-- A bound on the bytes of the fields.
abbrev pub sizes : List Field → ℕ
sizes [] = 0
sizes ((name, x) ∷ fs) = 12 + length name + carried x + sizes fs

module _ (c : Codec) where
  -- The padding that fills the block.
  unfoldable pub padding_of : List ℕ → List Field → ℕ
  padding_of schema fs =
      block_bytes - (body_start c + length (c.flatten (d schema)) + length (field_bytes c fs))

  unfoldable pub written : List ℕ → List Field → List ℕ
  written schema fs = body_of c schema fs (padding_of schema fs)

module _ (c : Codec) (lawful : IsLawful c) where
  pub field_bytes-sizes : (fs : List Field) → AllWritten fs → length (field_bytes c fs) ≤ sizes fs
  unfolding field_bytes
  field_bytes-sizes [] a = omega arith
  field_bytes-sizes ((name, x) ∷ fs) a = omega (
    arith,
    length-append {0} (c.flatten (d name) ++ c.flatten x) (field_bytes c fs),
    length-append {0} (c.flatten (d name)) (c.flatten x),
    lawful.flatten_small (d name) a.0,
    lawful.flatten_small x a.1,
    field_bytes-sizes fs a.2,
  )

  -- The header takes at most 43 bytes.
  pub body_start_small : body_start c ≤ 43
  unfolding body_start hp_len
  body_start_small = omega (arith, lawful.flatten_small (hp zero_hash) refl)

  pub encode_doc-fits :
      (schema : List ℕ) (fs : List Field)
      → length schema ≤ 24
      → body_start c + (6 + length schema) + length (field_bytes c fs) ≤ block_bytes
      → encode_doc c schema fs ≡ ok (sealed_block c (written c schema fs))
  unfolding padding_of written
  encode_doc-fits schema fs s fits =
      encode_doc-eq c lawful schema fs (padding_of c schema fs)
        (omega (arith, lawful.flatten_small (d schema) s))

  pub encode_doc-sizes :
      (schema : List ℕ) (fs : List Field)
      → length schema ≤ 24
      → AllWritten fs
      → body_start c + (6 + length schema) + sizes fs ≤ block_bytes
      → encode_doc c schema fs ≡ ok (sealed_block c (written c schema fs))
  encode_doc-sizes schema fs s a fits =
      encode_doc-fits schema fs s (omega (arith, field_bytes-sizes fs a))
