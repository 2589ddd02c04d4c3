-- ===== src/Ring/Readback.antt =====
-- src/ring.rs, `decode` on a block that `encode` wrote: the seal holds, the schema matches, and the
-- field loop hands every written field to the match, in order.
use manifestus.Base.{
  ℕ, zero, suc, ◌+◌, ◌≤◌, ◌<◌, ◌≡◌, ◌∙◌, refl, sym, ap, ap₂, subst, subst₂, Bool, true, false, none,
  some, List, [], ◌∷◌, ◌++◌, length, drop, get_elem?, replicate, bytes_eq, bytes_eq_refl, ◌==◌,
  length-append, drop-append_length, get_elem?-append_length, arith,
}
use mathlib.Core.List.{append_assoc}
use manifestus.Error.{Result, ok, err, stuck, and_then}
use manifestus.Ring.Codec.{Codec, IsLawful, IsWritten, ReadsAs, VsfType, hp, d}
use manifestus.Ring.Document.{
  Field, magic, field_bytes, open_seal, check_seal, sealed_hp, block_is_sealed, read_schema,
  is_name_at, read_field, read_fields, decode_doc,
}
use manifestus.Ring.Sealed.{zeros, body_of, sealed_block}

-- What the match makes of the fields, one after another.
unfoldable pub absorb_all :
    {F : Type 0} → (List ℕ → VsfType → F → Result F) → List Field → F → Result F
absorb_all absorb [] acc = ok acc
absorb_all absorb ((name, x) ∷ fs) acc =
    and_then (absorb name x acc) (λ acc'. absorb_all absorb fs acc')

abbrev pub AllWritten : List Field → Type 0
AllWritten [] = Unit {0}
AllWritten ((name, x) ∷ fs) = (length name ≤ 24) × IsWritten x × AllWritten fs

and_then_pair :
    {F Q G : Type 0} (r : Result F) (q : Q) (g : F × Q → Result G) (h : F → Result G)
    → ((x : F) → g (x, q) ≡ h x)
    → and_then (and_then r (λ x. ok (x, q))) g ≡ and_then r h
and_then_pair (ok x) q g h e = e x
and_then_pair (err x) q g h e = refl
and_then_pair stuck q g h e = refl

module _ (c : Codec) (lawful : IsLawful c) where
  abbrev pub body_at : List ℕ → ℕ
  body_at body = 4 + length (c.flatten (hp (c.hash body))) + 1

  -- A name or a hash parses back as it was written.
  parse-name :
      (s pre post : List ℕ)
      → length s ≤ 24
      → c.parse (pre ++ c.flatten (d s) ++ post) (length pre)
        ≡ some (d s, length pre + length (c.flatten (d s)))
  parse-name s pre post h =
      let (w, r, e) = lawful.parse-flatten (d s) pre post h in
      e ∙ ap (λ (x : VsfType). some (x, length pre + length (c.flatten (d s)))) r

  parse-hash :
      (s pre post : List ℕ)
      → length s ≡ 32
      → c.parse (pre ++ c.flatten (hp s) ++ post) (length pre)
        ≡ some (hp s, length pre + length (c.flatten (hp s)))
  parse-hash s pre post h =
      let (w, r, e) = lawful.parse-flatten (hp s) pre post h in
      e ∙ ap (λ (x : VsfType). some (x, length pre + length (c.flatten (hp s)))) r

  pub drop-sealed : (body : List ℕ) → drop (body_at body) (sealed_block c body) ≡ body
  unfolding sealed_block
  drop-sealed body =
      let h = c.flatten (hp (c.hash body)) in
      let start : body_at body ≡ length (magic ++ h ++ b'>' ∷ []) =
        omega (arith, length-append {0} (magic ++ h) (b'>' ∷ []), length-append {0} magic h) in
      ap (λ (n : ℕ). drop n (sealed_block c body)) start
      ∙ ap (drop (length (magic ++ h ++ b'>' ∷ [])))
          (sym (append_assoc (magic ++ h) (b'>' ∷ []) body))
      ∙ drop-append_length (magic ++ h ++ b'>' ∷ []) body

  pub parse-sealed :
      (body : List ℕ)
      → c.parse (sealed_block c body) 4
        ≡ some (hp (c.hash body), 4 + length (c.flatten (hp (c.hash body))))
  unfolding sealed_block
  parse-sealed body = parse-hash (c.hash body) magic (b'>' ∷ body) (lawful.length-hash body)

  open_seal-sealed :
      (body : List ℕ) → open_seal c (sealed_block c body) ≡ ok (c.hash body, body_at body)
  unfolding open_seal sealed_block bytes_eq
  open_seal-sealed body =
      let h = c.flatten (hp (c.hash body)) in
      let gt : get_elem? (magic ++ h ++ b'>' ∷ body) (4 + length h) ≡ some b'>' =
        ap (get_elem? (magic ++ h ++ b'>' ∷ body)) (omega (arith, length-append {0} magic h))
        ∙ get_elem?-append_length (magic ++ h) (b'>' ∷ body) 0 in
      rw (parse-hash (c.hash body) magic (b'>' ∷ body) (lawful.length-hash body), gt)

  -- The seal of a sealed block verifies, by each of the three checks of the source.
  pub check_seal-sealed :
      (body : List ℕ)
      → (check_seal c (sealed_block c body) ≡ ok (body_at body))
        × (sealed_hp c (sealed_block c body) ≡ some (c.hash body))
        × (block_is_sealed c (sealed_block c body) ≡ true)
  unfolding check_seal sealed_hp block_is_sealed open_seal bytes_eq sealed_block
  check_seal-sealed body =
      let same : bytes_eq (c.hash (drop (body_at body) (sealed_block c body))) (c.hash body)
          ≡ true =
        ap (λ (b : List ℕ). bytes_eq (c.hash b) (c.hash body)) (drop-sealed body)
        ∙ bytes_eq_refl (c.hash body) in
      (
        rw (open_seal-sealed body, same),
        rw (open_seal-sealed body, same, lawful.length-hash body),
        rw (open_seal-sealed body, same),
      )

  -- The schema of a sealed block parses back.
  pub parse_schema-sealed :
      (schema rest : List ℕ)
      → length schema ≤ 24
      → (body : List ℕ) → body ≡ c.flatten (d schema) ++ rest
      → c.parse (sealed_block c body) (body_at body)
        ≡ some (d schema, body_at body + length (c.flatten (d schema)))
  unfolding sealed_block
  parse_schema-sealed schema rest small body e =
      let h = c.flatten (hp (c.hash body)) in
      let open_head = magic ++ h ++ b'>' ∷ [] in
      let start : length open_head ≡ body_at body =
        omega (arith, length-append {0} (magic ++ h) (b'>' ∷ []), length-append {0} magic h) in
      let block : open_head ++ c.flatten (d schema) ++ rest ≡ magic ++ h ++ b'>' ∷ body =
        rw e (simp append_assoc) in
      subst₂
        (λ (b : List ℕ) (p : ℕ). c.parse b p ≡ some (d schema, p + length (c.flatten (d schema))))
        block start (parse-name schema open_head rest small)

  read_schema-sealed :
      (schema rest : List ℕ)
      → length schema ≤ 24
      → (body : List ℕ) → body ≡ c.flatten (d schema) ++ rest
      → read_schema c schema (sealed_block c body) (body_at body)
        ≡ ok (body_at body + length (c.flatten (d schema)))
  unfolding read_schema
  read_schema-sealed schema rest small body e =
      rw (parse_schema-sealed schema rest small body e, read_schema, bytes_eq_refl schema)

  module _ {F : Type 0} (absorb : List ℕ → VsfType → F → Result F)
      (reads : (name : List ℕ) (x w : VsfType) (acc : F)
        → ReadsAs x w
        → IsWritten x
        → absorb name w acc ≡ absorb name x acc) where
    -- One round at a written field.
    read_field-written :
        (name : List ℕ) (x : VsfType) (pre post : List ℕ) (acc : F)
        → length name ≤ 24
        → IsWritten x
        → read_field c absorb (pre ++ (c.flatten (d name) ++ c.flatten x ++ post)) (length pre) acc
          ≡ and_then
              (absorb name x acc)
              (λ acc'. ok (acc', length (pre ++ c.flatten (d name) ++ c.flatten x)))
    unfolding read_field
    read_field-written name x pre post acc small written =
        let n = c.flatten (d name) in
        let b = c.flatten x in
        let whole = pre ++ (n ++ b ++ post) in
        let first : pre ++ n ++ (b ++ post) ≡ whole = simp append_assoc in
        let second : pre ++ n ++ b ++ post ≡ whole = simp append_assoc in
        let named : c.parse whole (length pre) ≡ some (d name, length pre + length n) =
          subst (λ (t : List ℕ). c.parse t (length pre) ≡ some (d name, length pre + length n))
            first (parse-name name pre (b ++ post) small) in
        let (w, r, e) = lawful.parse-flatten x (pre ++ n) post written in
        let valued : c.parse whole (length pre + length n) ≡ some (w, length (pre ++ n ++ b)) =
          subst₂ (λ (t : List ℕ) (p : ℕ). c.parse t p ≡ some (w, length (pre ++ n ++ b))) second
            (length-append pre n)
            (e ∙ ap (λ (q : ℕ). some (w, q)) (sym (length-append (pre ++ n) b))) in
        rw (named, read_field, valued, reads name x w acc r written)

    -- The byte at a written field is the 'd' of its name; the padding's is none.
    name_at-written :
        (name : List ℕ) (pre post : List ℕ)
        → is_name_at c absorb (pre ++ (c.flatten (d name) ++ post)) (length pre) ≡ true
    name_at-written name pre post =
        let (r, e) = lawful.flatten_name name in
        let here : get_elem? (pre ++ (c.flatten (d name) ++ post)) (length pre)
            ≡ get_elem? (c.flatten (d name) ++ post) 0 =
          ap (get_elem? (pre ++ (c.flatten (d name) ++ post))) (omega arith)
          ∙ get_elem?-append_length pre (c.flatten (d name) ++ post) 0 in
        rw (is_name_at, here, e)

    name_at-zeros :
        (pre : List ℕ) (k : ℕ) → is_name_at c absorb (pre ++ zeros k) (length pre) ≡ false
    unfolding replicate
    name_at-zeros pre k =
        let here : get_elem? (pre ++ zeros k) (length pre) ≡ get_elem? (zeros k) 0 =
          ap (get_elem? (pre ++ zeros k)) (omega arith) ∙ get_elem?-append_length pre (zeros k) 0 in
        rw (is_name_at, here) (blank k)
      where
        blank :
            (j : ℕ)
            → elim (get_elem? (zeros j) 0) as (λ x. Bool) [ none ↦ false | some b ↦ b == b'd' ]
              ≡ false
        blank zero = refl
        blank (suc j) = refl

    -- The field loop over written fields is the match over them, given fuel for each and one round
    -- more.
    read_fields-written :
        (fs : List Field) (fuel : ℕ) (pre : List ℕ) (k : ℕ) (acc : F)
        → AllWritten fs
        → length fs < fuel
        → read_fields c absorb fuel (pre ++ (field_bytes c fs ++ zeros k)) (length pre) acc
          ≡ absorb_all absorb fs acc
    unfolding read_fields absorb_all field_bytes
    read_fields-written fs zero pre k acc a enough = absurd (omega arith)
    read_fields-written [] (suc fuel) pre k acc a enough = rw (name_at-zeros pre k)
    read_fields-written ((name, x) ∷ fs) (suc fuel) pre k acc a enough =
        let n = c.flatten (d name) in
        let b = c.flatten x in
        let f = field_bytes c fs in
        let z = zeros k in
        let e1 : n ++ b ++ f ++ z ≡ n ++ (b ++ f ++ z) = simp append_assoc in
        let e2 : n ++ b ++ f ++ z ≡ n ++ b ++ (f ++ z) = simp append_assoc in
        let e3 : pre ++ (n ++ b ++ f ++ z) ≡ (pre ++ n ++ b) ++ (f ++ z) = simp append_assoc in
        let named : is_name_at c absorb (pre ++ (n ++ b ++ f ++ z)) (length pre) ≡ true =
          ap (λ (t : List ℕ). is_name_at c absorb (pre ++ t) (length pre)) e1
          ∙ name_at-written name pre (b ++ f ++ z) in
        let round : read_field c absorb (pre ++ (n ++ b ++ f ++ z)) (length pre) acc
            ≡ and_then (absorb name x acc) (λ acc'. ok (acc', length (pre ++ n ++ b))) =
          ap (λ (t : List ℕ). read_field c absorb (pre ++ t) (length pre) acc) e2
          ∙ read_field-written name x pre (f ++ z) acc a.0 a.1 in
        rw (named, round)
          (and_then_pair (absorb name x acc) _ _ _ (λ acc'.
            ap (λ (t : List ℕ). read_fields c absorb fuel t (length (pre ++ n ++ b)) acc') e3
            ∙ read_fields-written fs fuel (pre ++ n ++ b) k acc' a.2 (omega arith)))

    field_bytes-long : (fs : List Field) → length fs ≤ length (field_bytes c fs)
    unfolding field_bytes
    field_bytes-long [] = omega arith
    field_bytes-long ((name, x) ∷ fs) =
        let (r, e) = lawful.flatten_name name in
        omega (
          arith,
          ap (λ (t : List ℕ). length t) e,
          length-append {0} (c.flatten (d name) ++ c.flatten x) (field_bytes c fs),
          length-append {0} (c.flatten (d name)) (c.flatten x),
          field_bytes-long fs,
        )

    -- The field loop after the schema of a document that was encoded.
    pub read_fields-sealed :
        (schema : List ℕ) (fs : List Field) (k : ℕ) (start : F)
        → AllWritten fs
        → (block : List ℕ) → block ≡ sealed_block c (body_of c schema fs k)
        → read_fields c absorb
            (suc (length block))
            block
            (body_at (body_of c schema fs k) + length (c.flatten (d schema)))
            start
          ≡ absorb_all absorb fs start
    unfolding body_of sealed_block
    read_fields-sealed schema fs k start a block e =
        let body = body_of c schema fs k in
        let h = c.flatten (hp (c.hash body)) in
        let s = c.flatten (d schema) in
        let f = field_bytes c fs in
        let pre = magic ++ h ++ b'>' ∷ [] ++ s in
        let whole : block ≡ pre ++ (f ++ zeros k) = e ∙ (simp append_assoc) in
        let at : body_at body + length s ≡ length pre = omega (
          arith,
          length-append {0} (magic ++ h ++ b'>' ∷ []) s,
          length-append {0} (magic ++ h) (b'>' ∷ []),
          length-append {0} magic h,
        ) in
        let enough : length fs < suc (length block) = omega (
          arith,
          ap (λ (t : List ℕ). length t) whole,
          length-append {0} pre (f ++ zeros k),
          length-append {0} f (zeros k),
          field_bytes-long fs,
        ) in
        ap₂ (λ (t : List ℕ) (p : ℕ). read_fields c absorb (suc (length block)) t p start) whole at
        ∙ read_fields-written fs (suc (length block)) pre k start a enough

    -- Decoding a document that was encoded: what the match makes of its fields.
    pub decode_doc-sealed :
        (schema : List ℕ) (fs : List Field) (k : ℕ) (start : F)
        → length schema ≤ 24
        → AllWritten fs
        → decode_doc c absorb schema start (sealed_block c (body_of c schema fs k))
          ≡ absorb_all absorb fs start
    unfolding decode_doc body_of
    decode_doc-sealed schema fs k start small a =
        let body = body_of c schema fs k in
        let s = c.flatten (d schema) in
        rw (
          (check_seal-sealed body).0,
          read_schema-sealed schema (field_bytes c fs ++ zeros k) small body
              (append_assoc s (field_bytes c fs) (zeros k)),
          read_fields-sealed schema fs k start a (sealed_block c body) refl,
        )
