-- ===== src/Hamt/Doc.antt =====
-- src/hamt.rs: a block of the index as a document, `decode_doc`, and as what a pointer names, `doc_of`.
use manifestus.Base.{
  ℕ, zero, suc, ◌+◌, ◌*◌, ◌/◌, ◌%◌, ◌^◌, Bool, false, not, ◌||◌, Option, none, some, List, [], ◌∷◌,
  ◌++◌, length, bytes_eq, leb, ◌==◌, if◌then◌else◌,
}
use manifestus.Error.{Result, ok, err, stuck, and_then, corrupt, seal}
use manifestus.Block.{Block, zero_block}
use manifestus.Ring.Codec.{Codec, VsfType, hp, d, v, as_u64, text}
use manifestus.Ring.Document.{read_fields, sealed_hp}
use manifestus.Ring.Entry.{to32}
use manifestus.Hamt.Runs.{Extent}
use manifestus.Hamt.Leaf.{
  Child, committed, dirty, Node, schema_lone, schema_extent, schema_direct, schema_furrow,
  schema_node,
}

-- Levels that a key can route.
abbrev pub max_depth : ℕ
max_depth = (32 * 8 + 4) / 5

-- Decoded tract block, by schema.
pub data TractDoc : Type 0 where
  node : Node → TractDoc
  lone : List ℕ → List ℕ → TractDoc
  extent : List ℕ → ℕ → List Extent → TractDoc
  direct : List ℕ → ℕ → List ℕ → TractDoc
  furrow : List ℕ → ℕ → List ℕ → TractDoc

-- The local variables of the field loop.
pub record DocFields : Type 0 where
  pub key : Option (List ℕ)
  pub value : Option (List ℕ)
  pub size : Option ℕ
  pub index : Option ℕ
  pub depth : Option ℕ
  pub route : Option (List ℕ)
  pub map : Option ℕ
  pub hashes : List (List ℕ)
  pub lbas : List ℕ
  pub furrows : List ℕ
  pub run_starts : List ℕ
  pub run_counts : List ℕ

abbrev pub no_doc_fields : DocFields
no_doc_fields = record {
  key = none;
  value = none;
  size = none;
  index = none;
  depth = none;
  route = none;
  map = none;
  hashes = [];
  lbas = [];
  furrows = [];
  run_starts = [];
  run_counts = [];
}

abbrev pub number : Option ℕ → (ℕ → DocFields) → DocFields → Result DocFields
number (some n) found fs = ok (found n)
number none found fs = ok fs

abbrev pub hash_value : VsfType → (List ℕ → DocFields) → DocFields → Result DocFields
hash_value (hp h) found fs = and_then (to32 h) (λ k. ok (found k))
hash_value _ found fs = ok fs

abbrev pub bytes_value : VsfType → DocFields → Result DocFields
bytes_value (v t bytes) fs = ok (record fs { value = some bytes })
bytes_value _ fs = ok fs

-- The match of the field loop: an unknown name or an unexpected type is skipped.
unfoldable pub absorb_doc_as : Option ℕ → List ℕ → VsfType → DocFields → Result DocFields
absorb_doc_as o name x fs =
    if bytes_eq name (text "key")
    then hash_value x (λ h. record fs { key = some h }) fs
    else if bytes_eq name (text "v")
    then bytes_value x fs
    else if bytes_eq name (text "size")
    then number o (λ n. record fs { size = some n }) fs
    else if bytes_eq name (text "i")
    then number o (λ n. record fs { index = some n }) fs
    else if bytes_eq name (text "depth")
    then number o (λ n. record fs { depth = some n }) fs
    else if bytes_eq name (text "route")
    then hash_value x (λ h. record fs { route = some h }) fs
    else if bytes_eq name (text "map")
    then number o (λ n. record fs { map = some n }) fs
    else if bytes_eq name (text "ch")
    then hash_value x (λ h. record fs { hashes = fs.hashes ++ h ∷ [] }) fs
    else if bytes_eq name (text "at")
    then number o (λ n. record fs { lbas = fs.lbas ++ n ∷ [] }) fs
    else if bytes_eq name (text "f")
    then number o (λ n. record fs { furrows = fs.furrows ++ n ∷ [] }) fs
    else if bytes_eq name (text "s")
    then number o (λ n. record fs { run_starts = fs.run_starts ++ n ∷ [] }) fs
    else if bytes_eq name (text "c")
    then number o (λ n. record fs { run_counts = fs.run_counts ++ n ∷ [] }) fs
    else ok fs

unfoldable pub absorb_doc : List ℕ → VsfType → DocFields → Result DocFields
unfolding absorb_doc_as
absorb_doc name x fs = absorb_doc_as (as_u64 x) name x fs

-- `.ok_or_else(|| Corrupt(..))?`
abbrev pub required : {A B : Type 0} → Option A → (A → Result B) → Result B
required none f = err (corrupt "missing field")
required (some a) f = f a

unfoldable pub zip : List ℕ → List ℕ → List Extent
zip [] ys = []
zip (x ∷ xs) [] = []
zip (x ∷ xs) (y ∷ ys) = (x, y) ∷ zip xs ys

-- `presence & (1 << bit) != 0`
abbrev pub has_bit : ℕ → ℕ → Bool
has_bit presence bit = presence / 2 ^ bit % 2 == 1

-- `count_ones`, of the `left` bits from `bit`.
unfoldable pub ones_from : ℕ → ℕ → ℕ → ℕ
ones_from presence bit zero = 0
ones_from presence bit (suc left) =
    let rest = ones_from presence (bit + 1) left in if has_bit presence bit then suc rest else rest

-- The children of the `left` bits from `bit`: each bit that is set takes the next hash and position.
unfoldable pub place_children : ℕ → ℕ → ℕ → List (List ℕ) → List ℕ → Result (List (Option Child))
place_children presence bit zero hashes lbas = ok []
place_children presence bit (suc left) [] lbas =
    let rest = place_children presence (bit + 1) left [] lbas in
    if has_bit presence bit then stuck else and_then rest (λ cs. ok (none ∷ cs))
place_children presence bit (suc left) (h ∷ hashes) [] =
    let rest = place_children presence (bit + 1) left (h ∷ hashes) [] in
    if has_bit presence bit then stuck else and_then rest (λ cs. ok (none ∷ cs))
place_children presence bit (suc left) (h ∷ hashes) (lba ∷ lbas) =
    let taken = place_children presence (bit + 1) left hashes lbas in
    let rest = place_children presence (bit + 1) left (h ∷ hashes) (lba ∷ lbas) in
    if has_bit presence bit
    then and_then taken (λ cs. ok (some (committed h lba) ∷ cs))
    else and_then rest (λ cs. ok (none ∷ cs))

-- A node of `width` children, from its presence bits.
unfoldable pub node_of : ℕ → ℕ → DocFields → Result TractDoc
unfolding ones_from place_children
node_of width presence fs =
    if not (ones_from presence 0 width == length fs.hashes)
      || not (length fs.hashes == length fs.lbas)
    then err (corrupt "node: presence/children mismatch")
    else required fs.depth (λ depth.
      if leb max_depth depth
      then err (corrupt "node: depth beyond the key's levels")
      else required fs.route (λ route.
        and_then (place_children presence 0 width fs.hashes fs.lbas)
          (λ cs. ok (node (record { depth = depth; route = route; children = cs })))))

unfoldable pub assemble_node : DocFields → Result TractDoc
unfolding node_of
assemble_node fs = required fs.map (λ word. node_of 32 (word % 2 ^ 32) fs)

unfoldable pub assemble_extent : DocFields → Result TractDoc
unfolding zip
assemble_extent fs =
    if not (length fs.run_starts == length fs.run_counts)
    then err (corrupt "extent: run start/count mismatch")
    else required fs.key
        (λ key. required fs.size (λ size. ok (extent key size (zip fs.run_starts fs.run_counts))))

-- The match on the schema.
unfoldable pub assemble_doc : List ℕ → DocFields → Result TractDoc
unfolding assemble_node assemble_extent
assemble_doc schema fs =
    if bytes_eq schema schema_lone
    then required fs.key (λ key. required fs.value (λ value. ok (lone key value)))
    else if bytes_eq schema schema_extent
    then assemble_extent fs
    else if bytes_eq schema schema_direct
    then required fs.key (λ key. required fs.size (λ size. ok (direct key size fs.furrows)))
    else if bytes_eq schema schema_furrow
    then required fs.key (λ key.
      required fs.index (λ index. required fs.value (λ value. ok (furrow key index value))))
    else if bytes_eq schema schema_node
    then assemble_node fs
    else err (corrupt "unknown tract schema")

-- The first position that is past the tract.
unfoldable pub past_tract : ℕ → List ℕ → Bool
past_tract tract_len [] = false
past_tract tract_len (lba ∷ lbas) = leb tract_len lba || past_tract tract_len lbas

unfoldable pub child_lbas : List (Option Child) → List ℕ
child_lbas [] = []
child_lbas (some (committed hash lba) ∷ cs) = lba ∷ child_lbas cs
child_lbas (some (dirty i) ∷ cs) = child_lbas cs
child_lbas (none ∷ cs) = child_lbas cs

unfoldable pub pointed : TractDoc → List ℕ
unfolding child_lbas
pointed (node n) = child_lbas n.children
pointed (direct key size furrows) = furrows
pointed (lone key value) = []
pointed (extent key size runs) = []
pointed (furrow key index payload) = []

unfoldable pub check_pointed : ℕ → TractDoc → Result (Option TractDoc)
unfolding past_tract pointed
check_pointed tract_len doc =
    if past_tract tract_len (pointed doc)
    then err (corrupt "block points past the tract")
    else ok (some doc)

module _ (c : Codec) where
  -- The schema after the seal and the '>', neither of which is checked here.
  unfoldable pub doc_schema : Block → Result (List ℕ × ℕ)
  doc_schema block = elim (c.parse block 4) [
    | none ↦ err (corrupt "vsf parse")
    | some (x, ptr) ↦ elim (c.parse block (ptr + 1)) [
      | none ↦ err (corrupt "vsf parse")
      | some (y, q) ↦ elim y [ d schema ↦ ok (schema, q) | _ ↦ err (corrupt "missing schema") ]
    ]
  ]

  unfoldable pub decode_doc : Block → Result TractDoc
  unfolding absorb_doc assemble_doc doc_schema
  decode_doc block = and_then (doc_schema block) (λ h.
      and_then (read_fields c absorb_doc (suc (length block)) block h.1 no_doc_fields)
        (assemble_doc h.0))

  -- A read block as the document that a pointer with this hash names: none when zeroed.
  unfoldable pub doc_of : Block → List ℕ → ℕ → Result (Option TractDoc)
  unfolding check_pointed decode_doc
  doc_of buf expected tract_len =
      if bytes_eq buf zero_block then ok none else elim (sealed_hp c buf) [
        | none ↦ err (corrupt "unsealed block")
        | some hash ↦
            if not (bytes_eq hash expected)
            then err seal
            else and_then (decode_doc buf) (check_pointed tract_len)
      ]
