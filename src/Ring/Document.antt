-- ===== src/Ring/Document.antt =====
-- src/ring.rs, the sealed document that every entry is: magic, the hash of the body, the body with
-- a schema name and named fields, zero padding. `encode` and `decode` of both entry types write it
-- and read it in the same way; `block_is_sealed` and src/tract.rs `sealed_hp` check its seal.
use manifestus.Base.{
  ℕ, zero, suc, ◌+◌, Bool, false, not, Option, none, some, List, [], ◌∷◌, ◌++◌, length, take, drop,
  get_elem?, bytes_eq, leb, ◌==◌, if◌then◌else◌,
}
use manifestus.Error.{Result, ok, err, stuck, and_then, bad_magic, seal, corrupt}
use manifestus.Block.{Block, zero_block}
use manifestus.Ring.Codec.{Codec, VsfType, hp, d}

abbrev pub magic : List ℕ
magic = 0x52 ∷ 0xC3 ∷ 0x85 ∷ 0x3C ∷ []

-- `buf[at..at + n].copy_from_slice(bytes)`: a panic past the end of the buffer.
unfoldable pub copy_at : ℕ → List ℕ → Block → Result Block
copy_at at bytes buf =
    if leb (at + length bytes) (length buf)
    then ok (take at buf ++ bytes ++ drop (at + length bytes) buf)
    else stuck

abbrev pub zero_hash : List ℕ
zero_hash =
    0 ∷ 0 ∷ 0 ∷ 0 ∷ 0 ∷ 0 ∷ 0 ∷ 0 ∷ 0 ∷ 0 ∷ 0 ∷ 0 ∷ 0 ∷ 0 ∷ 0 ∷ 0 ∷ 0 ∷ 0 ∷ 0 ∷ 0 ∷ 0 ∷ 0 ∷ 0 ∷ 0
    ∷ 0 ∷ 0 ∷ 0 ∷ 0 ∷ 0 ∷ 0 ∷ 0 ∷ 0 ∷ []

abbrev pub Field : Type 0
Field = List ℕ × VsfType

module _ (c : Codec) where
  -- The bytes that `put` is called with, in order.
  unfoldable pub field_bytes : List Field → List ℕ
  field_bytes [] = []
  field_bytes ((name, x) ∷ fs) = c.flatten (d name) ++ c.flatten x ++ field_bytes fs

  -- `put` of each name and value at the cursor.
  unfoldable pub put_fields : List Field → ℕ → Block → Result Block
  put_fields [] cursor buf = ok buf
  put_fields ((name, x) ∷ fs) cursor buf =
      let n = c.flatten (d name) in
      let b = c.flatten x in
      and_then (copy_at cursor n buf) (λ buf1.
        and_then (copy_at (cursor + length n) b buf1)
          (λ buf2. put_fields fs (cursor + length n + length b) buf2))

  unfoldable pub hp_len : ℕ
  hp_len = length (c.flatten (hp zero_hash))

  unfoldable pub body_start : ℕ
  body_start = 4 + hp_len + 1

  -- Header with a placeholder hash, the schema, the fields.
  unfoldable pub fill_doc : List ℕ → List Field → Result Block
  fill_doc schema fields = and_then (copy_at 0 magic zero_block) (λ b1.
      and_then (copy_at 4 (c.flatten (hp zero_hash)) b1) (λ b2.
        and_then (copy_at (4 + hp_len) (b'>' ∷ []) b2) (λ b3.
          let s = c.flatten (d schema) in
          and_then (copy_at body_start s b3) (λ b4. put_fields fields (body_start + length s) b4))))

  -- The hash of the body, patched into the header.
  unfoldable pub seal_doc : Block → Result Block
  seal_doc buf = copy_at 4 (c.flatten (hp (c.hash (drop body_start buf)))) buf

  unfoldable pub encode_doc : List ℕ → List Field → Result Block
  encode_doc schema fields = and_then (fill_doc schema fields) seal_doc

  -- The header of a block: the stored hash and where the body starts.
  unfoldable pub open_seal : Block → Result (List ℕ × ℕ)
  open_seal block =
      if not (bytes_eq (take 4 block) magic) then err bad_magic else elim (c.parse block 4) [
        | none ↦ err (corrupt "vsf parse")
        | some (x, ptr) ↦ elim x [
          | hp stored ↦ elim (get_elem? block ptr) [
            | none ↦ err (corrupt "expected '>' after hp")
            | some g ↦
                if g == b'>' then ok (stored, ptr + 1) else err (corrupt "expected '>' after hp")
          ]
          | _ ↦ err (corrupt "expected hp after magic")
        ]
      ]

  -- The seal check, before believing a single field: where the body starts.
  unfoldable pub check_seal : Block → Result ℕ
  check_seal block =
      and_then (open_seal block)
        (λ h. if bytes_eq (c.hash (drop h.1 block)) h.0 then ok h.1 else err seal)

  unfoldable pub read_schema : List ℕ → Block → ℕ → Result ℕ
  read_schema schema block ptr = elim (c.parse block ptr) [
    | none ↦ err (corrupt "vsf parse")
    | some (x, q) ↦ elim x [
      | d s ↦ if bytes_eq s schema then ok q else err (corrupt "foreign schema")
      | _ ↦ err (corrupt "expected schema id")
    ]
  ]

  module _ {F : Type 0} (absorb : List ℕ → VsfType → F → Result F) where
    abbrev pub is_name_at : Block → ℕ → Bool
    is_name_at block ptr = elim (get_elem? block ptr) [ none ↦ false | some b ↦ b == b'd' ]

    -- One round of the field loop: a name, a value, and what the match makes of them.
    unfoldable pub read_field : Block → ℕ → F → Result (F × ℕ)
    read_field block ptr acc = elim (c.parse block ptr) [
      | none ↦ err (corrupt "vsf parse")
      | some (x, q) ↦ elim x [
        | d name ↦ elim (c.parse block q) [
          | none ↦ err (corrupt "vsf parse")
          | some (y, p) ↦ and_then (absorb name y acc) (λ acc'. ok (acc', p))
        ]
        | _ ↦ err (corrupt "expected field name")
      ]
    ]

    -- Named pairs until the byte at the pointer is no 'd'; `stuck` when the fuel runs out.
    unfoldable pub read_fields : ℕ → Block → ℕ → F → Result F
    read_fields zero block ptr acc = stuck
    read_fields (suc fuel) block ptr acc =
        let rest = λ (x : F × ℕ). read_fields fuel block x.1 x.0 in
        if is_name_at block ptr then and_then (read_field block ptr acc) rest else ok acc

    -- The whole decoder: the seal, the schema, the fields. Each round moves the pointer, so the
    -- length of the block is fuel enough.
    unfoldable pub decode_doc : List ℕ → F → Block → Result F
    decode_doc schema start block = and_then (check_seal block) (λ body.
        and_then (read_schema schema block body)
          (λ ptr. read_fields (suc (length block)) block ptr start))

  -- src/tract.rs `sealed_hp`: the sealing hash if, and only if, the seal verifies.
  unfoldable pub sealed_hp : Block → Option (List ℕ)
  sealed_hp block = elim (open_seal block) [
    | ok (stored, body) ↦
        if bytes_eq (c.hash (drop body block)) stored
        then (if length stored == 32 then some stored else none)
        else none
    | err e ↦ none
    | stuck ↦ none
  ]

  unfoldable pub block_is_sealed : Block → Bool
  block_is_sealed block = elim (open_seal block) [
    | ok (stored, body) ↦ bytes_eq (c.hash (drop body block)) stored
    | err e ↦ false
    | stuck ↦ false
  ]
