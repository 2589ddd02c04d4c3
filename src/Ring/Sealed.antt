-- ===== src/Ring/Sealed.antt =====
-- src/ring.rs, `encode`: the block that it writes, as one byte string, and its seal.
use manifestus.Base.{
  ℕ, ◌+◌, ◌-◌, ◌≤◌, ◌≡◌, ◌∙◌, refl, sym, ap, true, List, [], ◌∷◌, ◌++◌, length, drop, replicate,
  length-append, length-replicate, drop-replicate, take-append_length, drop-append_length,
  drop-append_add, leb, arith,
}
use mathlib.Core.List.{append_assoc, append-nil}
use manifestus.Error.{ok}
use manifestus.Block.{zero_block, block_bytes}
use manifestus.Ring.Codec.{Codec, IsLawful, hp, d}
use manifestus.Ring.Document.{
  Field, magic, zero_hash, copy_at, field_bytes, put_fields, hp_len, body_start, fill_doc, seal_doc,
  encode_doc,
}

abbrev pub zeros : ℕ → List ℕ
zeros k = replicate k 0

leb_of_le : (a b : ℕ) → a ≤ b → leb a b ≡ true
leb_of_le a b h = ground arith

-- Writing at the end of what is written, into the zeros that follow.
copy_at-zeros :
    (pre bytes : List ℕ) (k : ℕ)
    → length bytes ≤ k
    → copy_at (length pre) bytes (pre ++ zeros k) ≡ ok (pre ++ bytes ++ zeros (k - length bytes))
unfolding copy_at
copy_at-zeros pre bytes k h =
    let fits : leb (length pre + length bytes) (length (pre ++ zeros k)) ≡ true =
      leb_of_le _ _
        (omega (arith, length-append {0} pre (zeros k), length-replicate {0} {A = ℕ} k 0)) in
    rw (fits, take-append_length, drop-append_add, drop-replicate)

-- Writing over bytes of the same length.
copy_at-over :
    (pre old new rest : List ℕ)
    → length old ≡ length new
    → copy_at (length pre) new (pre ++ old ++ rest) ≡ ok (pre ++ new ++ rest)
unfolding copy_at
copy_at-over pre old new rest h =
    let fits : leb (length pre + length new) (length (pre ++ (old ++ rest))) ≡ true =
      leb_of_le _ _
        (omega (arith, length-append {0} pre (old ++ rest), length-append {0} old rest)) in
    rw (
      append_assoc pre old rest,
      fits,
      take-append_length,
      drop-append_add,
      ← h,
      drop-append_length,
    )

regroup : (p n b f : List ℕ) → p ++ n ++ b ++ f ≡ p ++ (n ++ b ++ f)
regroup p n b f = simp append_assoc

module _ (c : Codec) where
  pub put_fields-zeros :
      (fs : List Field) (pre : List ℕ) (k : ℕ)
      → length (field_bytes c fs) ≤ k
      → put_fields c fs (length pre) (pre ++ zeros k)
        ≡ ok (pre ++ field_bytes c fs ++ zeros (k - length (field_bytes c fs)))
  unfolding put_fields field_bytes
  put_fields-zeros [] pre k h =
      let e : k ≡ k - 0 = omega arith in rw append-nil (ap (λ n. ok (pre ++ zeros n)) e)
  put_fields-zeros ((name, x) ∷ fs) pre k h =
      let n = c.flatten (d name) in
      let b = c.flatten x in
      let f = field_bytes c fs in
      let total : length (n ++ b ++ f) ≡ length n + length b + length f =
        omega (arith, length-append {0} (n ++ b) f, length-append {0} n b) in
      let left : k - length n - length b - length f ≡ k - length (n ++ b ++ f) = omega arith in
      rw
        (
          copy_at-zeros pre n k (omega arith),
          ← length-append pre n,
          copy_at-zeros (pre ++ n) b (k - length n) (omega arith),
          ← length-append (pre ++ n) b,
          put_fields-zeros fs (pre ++ n ++ b) (k - length n - length b) (omega arith),
          left,
        )
        (ap (λ (t : List ℕ). ok (t ++ zeros (k - length (n ++ b ++ f)))) (regroup pre n b f))

  -- The body of a document with `k` bytes of padding, and the block with its seal in front.
  unfoldable pub body_of : List ℕ → List Field → ℕ → List ℕ
  body_of schema fs k = c.flatten (d schema) ++ field_bytes c fs ++ zeros k

  unfoldable pub sealed_block : List ℕ → List ℕ
  sealed_block body = magic ++ c.flatten (hp (c.hash body)) ++ b'>' ∷ body

  module _ (lawful : IsLawful c) where
    length-hash_flat :
        (b : List ℕ) → length (c.flatten (hp zero_hash)) ≡ length (c.flatten (hp (c.hash b)))
    length-hash_flat b = lawful.length-flatten_hp zero_hash (c.hash b) refl (lawful.length-hash b)

    -- Everything up to the field loop's end, before the hash is known.
    fill_doc-eq :
        (schema : List ℕ) (fs : List Field) (k : ℕ)
        → body_start c + length (c.flatten (d schema)) + length (field_bytes c fs) + k ≡ block_bytes
        → fill_doc c schema fs
          ≡ ok (magic ++ c.flatten (hp zero_hash) ++ b'>' ∷ [] ++ body_of schema fs k)
    unfolding fill_doc body_start hp_len zero_block body_of
    fill_doc-eq schema fs k size =
        let ph = c.flatten (hp zero_hash) in
        let s = c.flatten (d schema) in
        let f = field_bytes c fs in
        let head = magic ++ ph in
        let open_head = head ++ b'>' ∷ [] in
        let at_gt : 4 + length ph ≡ length head = sym (length-append magic ph) in
        let at_body : length head + 1 ≡ length open_head = sym (length-append head (b'>' ∷ [])) in
        let at_fields : length open_head + length s ≡ length (open_head ++ s) =
          sym (length-append open_head s) in
        let left : block_bytes - 4 - length ph - 1 - length s - length f ≡ k = omega arith in
        rw
          (
            copy_at-zeros [] magic block_bytes (omega arith),
            copy_at-zeros magic ph (block_bytes - 4) (omega arith),
            at_gt,
            copy_at-zeros head (b'>' ∷ []) (block_bytes - 4 - length ph) (omega arith),
            at_body,
            copy_at-zeros open_head s (block_bytes - 4 - length ph - 1) (omega arith),
            at_fields,
            put_fields-zeros fs (open_head ++ s) (block_bytes - 4 - length ph - 1 - length s)
                (omega arith),
            left,
          )
          (ap ok (simp append_assoc))

    seal_doc-eq :
        (body : List ℕ)
        → seal_doc c (magic ++ c.flatten (hp zero_hash) ++ b'>' ∷ [] ++ body)
          ≡ ok (sealed_block body)
    unfolding seal_doc sealed_block body_start hp_len
    seal_doc-eq body =
        let ph = c.flatten (hp zero_hash) in
        let open_head = magic ++ ph ++ b'>' ∷ [] in
        let start : 4 + length ph + 1 ≡ length open_head =
          omega (arith, length-append {0} (magic ++ ph) (b'>' ∷ []), length-append {0} magic ph) in
        let dropped : drop (4 + length ph + 1) (open_head ++ body) ≡ body =
          ap (λ n. drop n (open_head ++ body)) start ∙ drop-append_length open_head body in
        let regrouped : open_head ++ body ≡ magic ++ ph ++ b'>' ∷ body =
          append_assoc (magic ++ ph) (b'>' ∷ []) body in
        ap (λ (b : List ℕ). copy_at 4 (c.flatten (hp (c.hash b))) (open_head ++ body)) dropped
        ∙ ap (copy_at 4 (c.flatten (hp (c.hash body)))) regrouped
        ∙ copy_at-over magic ph (c.flatten (hp (c.hash body))) (b'>' ∷ body) (length-hash_flat body)

    -- What `encode` writes when it fits: the sealed block of the schema and the fields, padded.
    pub encode_doc-eq :
        (schema : List ℕ) (fs : List Field) (k : ℕ)
        → body_start c + length (c.flatten (d schema)) + length (field_bytes c fs) + k ≡ block_bytes
        → encode_doc c schema fs ≡ ok (sealed_block (body_of schema fs k))
    unfolding encode_doc
    encode_doc-eq schema fs k size =
        rw (fill_doc-eq schema fs k size) (seal_doc-eq (body_of schema fs k))
