-- ===== src/Hamt/WrittenNode.antt =====
-- src/hamt.rs, `encode_node`: a node whose children are all flushed fits and decodes to itself.
use manifestus.Base.{
  ℕ, suc, ◌+◌, ◌*◌, ◌/◌, ◌%◌, ◌^◌, ◌≤◌, ◌<◌, ◌≡◌, ◌∙◌, refl, ap, subst, true, false, Option, none,
  some, List, [], ◌∷◌, ◌++◌, length, bytes_eq, leb, ◌==◌, slots, slots_pos, arith,
}
use native.Mathlib.Nat.{add-mul-div_left, div-eq_of_lt, pow-suc, two-pow-succ, mod-eq_of_lt}
use mathlib.Core.List.{append_assoc, append-nil}
use manifestus.Error.{ok}
use manifestus.Block.{Block}
use manifestus.Ring.Codec.{Codec, IsLawful, hp, u, as_u64, text, word}
use manifestus.Ring.Document.{Field}
use manifestus.Ring.Entry.{to32}
use manifestus.Ring.Sealed.{sealed_block}
use manifestus.Ring.Readback.{AllWritten, absorb_all}
use manifestus.Ring.Size.{sizes, written, body_start_small, encode_doc-sizes}
use manifestus.Hamt.Leaf.{
  Child, committed, dirty, Node, schema_node, presence_from, child_fields, encode_node,
}
use manifestus.Hamt.Doc.{
  node, DocFields, no_doc_fields, absorb_doc, absorb_doc_as, assemble_doc, assemble_node, node_of,
  max_depth, ones_from, place_children, has_bit,
}
use manifestus.Hamt.Written.{Carries, decode_doc-written, length-32}

-- The children, as a number whose lowest bit is the first child's.
abbrev bits : List (Option Child) → ℕ
bits [] = 0
bits (none ∷ cs) = 2 * bits cs
bits (some c ∷ cs) = 1 + 2 * bits cs

slots_suc : (i : ℕ) → slots (i + 1) ≡ slots i + slots i
slots_suc i = let e : i + 1 ≡ suc i = omega arith in ap slots e ∙ two-pow-succ i

presence_from-bits : (cs : List (Option Child)) (i : ℕ) → presence_from i cs ≡ slots i * bits cs
unfolding presence_from
presence_from-bits [] i = omega arith
presence_from-bits (none ∷ cs) i =
    let twice : slots (i + 1) * bits cs ≡ slots i * (2 * bits cs) =
      omega (arith, ap (λ (t : ℕ). t * bits cs) (slots_suc i)) in
    presence_from-bits cs (i + 1) ∙ twice
presence_from-bits (some c ∷ cs) i =
    let twice : slots i + slots (i + 1) * bits cs ≡ slots i * (1 + 2 * bits cs) =
      omega (arith, ap (λ (t : ℕ). t * bits cs) (slots_suc i)) in
    ap (λ (t : ℕ). slots i + t) (presence_from-bits cs (i + 1)) ∙ twice

bits_small : (cs : List (Option Child)) → bits cs < slots (length cs)
bits_small [] = omega arith
bits_small (none ∷ cs) = omega (arith, bits_small cs, pow-suc 2 (length cs))
bits_small (some c ∷ cs) = omega (arith, bits_small cs, pow-suc 2 (length cs))

-- The digit `q` above the `i` lower ones.
module _ (p low q i : ℕ) (small : low < slots i) (whole : p ≡ low + slots i * q) where
  quotient : p / 2 ^ i ≡ q
  quotient =
      ap (λ (t : ℕ). t / slots i) whole
      ∙ add-mul-div_left low q (slots_pos i)
      ∙ omega (arith, div-eq_of_lt small)

  has_bit-odd : (b : ℕ) → q ≡ 1 + 2 * b → has_bit p i ≡ true
  has_bit-odd b e = ground (arith, quotient)

  has_bit-even : (b : ℕ) → q ≡ 2 * b → has_bit p i ≡ false
  has_bit-even b e = ground (arith, quotient)

-- What the engine flushed: hashes of 32 bytes at positions of 64 bits.
abbrev pub AreCommitted : List (Option Child) → Type 0
AreCommitted [] = Unit {0}
AreCommitted (none ∷ cs) = AreCommitted cs
AreCommitted (some (committed hash lba) ∷ cs) = (length hash ≡ 32) × (lba < word) × AreCommitted cs
AreCommitted (some (dirty i) ∷ cs) = ⊥

abbrev hashes : List (Option Child) → List (List ℕ)
hashes [] = []
hashes (none ∷ cs) = hashes cs
hashes (some (committed hash lba) ∷ cs) = hash ∷ hashes cs
hashes (some (dirty i) ∷ cs) = hashes cs

abbrev lbas : List (Option Child) → List ℕ
lbas [] = []
lbas (none ∷ cs) = lbas cs
lbas (some (committed hash lba) ∷ cs) = lba ∷ lbas cs
lbas (some (dirty i) ∷ cs) = lbas cs

lbas-length : (cs : List (Option Child)) → length (lbas cs) ≡ length (hashes cs)
lbas-length [] = refl
lbas-length (none ∷ cs) = lbas-length cs
lbas-length (some (committed hash lba) ∷ cs) = ap suc (lbas-length cs)
lbas-length (some (dirty i) ∷ cs) = lbas-length cs

next_small : (i low : ℕ) → low < slots i → low < slots (i + 1)
next_small i low h = omega (arith, slots_suc i)

next_even : (i low b p : ℕ) → p ≡ low + slots i * (2 * b) → p ≡ low + slots (i + 1) * b
next_even i low b p e = omega (arith, ap (λ (t : ℕ). t * b) (slots_suc i))

next_odd : (i low b p : ℕ) → p ≡ low + slots i * (1 + 2 * b) → p ≡ low + slots i + slots (i + 1) * b
next_odd i low b p e = omega (arith, ap (λ (t : ℕ). t * b) (slots_suc i))

-- The number of ones is the number of children, and each bit takes its own child back.
bits-children :
    (cs : List (Option Child)) (p low i : ℕ)
    → low < slots i
    → p ≡ low + slots i * bits cs
    → AreCommitted cs
    → (ones_from p i (length cs) ≡ length (hashes cs))
      × (place_children p i (length cs) (hashes cs) (lbas cs) ≡ ok cs)
unfolding ones_from place_children
bits-children [] p low i small e a = (refl, refl)
bits-children (none ∷ cs) p low i small e a =
    let clear : has_bit p i ≡ false = has_bit-even p low (2 * bits cs) i small e (bits cs) refl in
    let (count, back) =
      bits-children cs p low (i + 1) (next_small i low small) (next_even i low (bits cs) p e) a in
    (rw clear count, skip (hashes cs) (lbas cs) clear back)
  where
    skip :
        (hs : List (List ℕ)) (ls : List ℕ)
        → has_bit p i ≡ false
        → place_children p (i + 1) (length cs) hs ls ≡ ok cs
        → place_children p i (suc (length cs)) hs ls ≡ ok (none ∷ cs)
    skip [] ls clear back = rw (clear, back) refl
    skip (h ∷ hs) [] clear back = rw (clear, back) refl
    skip (h ∷ hs) (l ∷ ls) clear back = rw (clear, back) refl
bits-children (some (dirty j) ∷ cs) p low i small e a = absurd a
bits-children (some (committed hash lba) ∷ cs) p low i small e a =
    let odd : has_bit p i ≡ true = has_bit-odd p low (1 + 2 * bits cs) i small e (bits cs) refl in
    let (count, back) =
      bits-children cs p (low + slots i) (i + 1) (omega (arith, slots_suc i))
        (next_odd i low (bits cs) p e) a.2 in
    (rw odd (ap suc count), rw (odd, back) refl)

-- The fields that `encode_node` writes for the children.
abbrev pairs : List (Option Child) → List Field
pairs [] = []
pairs (none ∷ cs) = pairs cs
pairs (some (committed hash lba) ∷ cs) = (text "ch", hp hash) ∷ (text "at", u lba) ∷ pairs cs
pairs (some (dirty i) ∷ cs) = pairs cs

child_fields-pairs : (cs : List (Option Child)) → AreCommitted cs → child_fields cs ≡ ok (pairs cs)
unfolding child_fields
child_fields-pairs [] a = refl
child_fields-pairs (none ∷ cs) a = child_fields-pairs cs a
child_fields-pairs (some (committed hash lba) ∷ cs) a = rw (child_fields-pairs cs a.2) refl
child_fields-pairs (some (dirty i) ∷ cs) a = absurd a

pairs-AllWritten : (cs : List (Option Child)) → AreCommitted cs → AllWritten (pairs cs)
pairs-AllWritten [] a = tt
pairs-AllWritten (none ∷ cs) a = pairs-AllWritten cs a
pairs-AllWritten (some (committed hash lba) ∷ cs) a =
    (omega arith, a.0, (omega arith, a.1, pairs-AllWritten cs a.2))
pairs-AllWritten (some (dirty i) ∷ cs) a = absurd a

pairs-sizes : (cs : List (Option Child)) → AreCommitted cs → sizes (pairs cs) ≤ 68 * length cs
pairs-sizes [] a = omega arith
pairs-sizes (none ∷ cs) a = omega (arith, pairs-sizes cs a)
pairs-sizes (some (committed hash lba) ∷ cs) a = omega (arith, a.0, pairs-sizes cs a.2)
pairs-sizes (some (dirty i) ∷ cs) a = absurd a

absorb_all-pairs :
    (cs : List (Option Child)) (fs : DocFields)
    → AreCommitted cs
    → absorb_all absorb_doc (pairs cs) fs
      ≡ ok (record fs { hashes = fs.hashes ++ hashes cs; lbas = fs.lbas ++ lbas cs })
unfolding absorb_all absorb_doc absorb_doc_as bytes_eq as_u64 to32
absorb_all-pairs [] fs a = simp append-nil
absorb_all-pairs (none ∷ cs) fs a = absorb_all-pairs cs fs a
absorb_all-pairs (some (committed hash lba) ∷ cs) fs a = rw (length-32 hash a.0) (
    absorb_all-pairs cs (record fs { hashes = fs.hashes ++ hash ∷ []; lbas = fs.lbas ++ lba ∷ [] })
      a.2
    ∙ (simp append_assoc))
absorb_all-pairs (some (dirty i) ∷ cs) fs a = absurd a

-- A node of the index as the engine makes them: a depth that a key can route, 32 children.
pub record IsNode (n : Node) : Type 0 where
  pub depth_small : n.depth < max_depth
  pub route_32 : length n.route ≡ 32
  pub children_32 : length n.children ≡ 32

presence_word : (cs : List (Option Child)) → length cs ≡ 32 → presence_from 0 cs % 2 ^ 32 ≡ bits cs
presence_word cs e =
    let small : bits cs < 2 ^ 32 = subst (λ (k : ℕ). bits cs < slots k) e (bits_small cs) in
    ap (λ (t : ℕ). t % 2 ^ 32) (presence_from-bits cs 0) ∙ omega (arith, mod-eq_of_lt small)

node_fields : Node → List Field
node_fields n =
    (text "depth", u n.depth)
    ∷ (text "route", hp n.route)
    ∷ (text "map", u (presence_from 0 n.children))
    ∷ pairs n.children

read_fields_of : Node → DocFields
read_fields_of n = record no_doc_fields {
  depth = some n.depth;
  route = some n.route;
  map = some (presence_from 0 n.children);
  hashes = hashes n.children;
  lbas = lbas n.children;
}

node_of-back :
    (n : Node)
    → n.depth < max_depth
    → AreCommitted n.children
    → node_of (length n.children) (bits n.children) (read_fields_of n) ≡ ok (node n)
unfolding node_of read_fields_of
node_of-back n deep a =
    let (count, back) =
      bits-children n.children (bits n.children) 0 0 (omega arith) (omega arith) a in
    let counted : (ones_from (bits n.children) 0 (length n.children) == length (hashes n.children))
        ≡ true =
      ground (arith, count) in
    let even : (length (hashes n.children) == length (lbas n.children)) ≡ true =
      ground (arith, lbas-length n.children) in
    let shallow : leb max_depth n.depth ≡ false = ground arith in
    rw (counted, even, shallow, back) refl

assemble_node-back :
    (n : Node) → IsNode n → AreCommitted n.children → assemble_node (read_fields_of n) ≡ ok (node n)
unfolding assemble_node read_fields_of
assemble_node-back n sound a =
    ap (λ (p : ℕ). node_of 32 p (read_fields_of n)) (presence_word n.children sound.children_32)
    ∙ subst (λ (k : ℕ). node_of k (bits n.children) (read_fields_of n) ≡ ok (node n))
        sound.children_32 (node_of-back n sound.depth_small a)

node_fields-AllWritten :
    (n : Node) → IsNode n → AreCommitted n.children → AllWritten (node_fields n)
unfolding node_fields
node_fields-AllWritten n sound a =
    let small : bits n.children < 2 ^ 32 =
      subst (λ (k : ℕ). bits n.children < slots k) sound.children_32 (bits_small n.children) in
    (
      omega arith,
      omega (arith, sound.depth_small),
      (
        omega arith,
        sound.route_32,
        (
          omega arith,
          omega (arith, presence_from-bits n.children 0),
          pairs-AllWritten n.children a,
        ),
      ),
    )

module _ (c : Codec) (lawful : IsLawful c) where
  -- Under a codec that obeys the laws, a node of 32 children that are all flushed is written into one
  -- block, and that block decodes to the node.
  pub decode_doc-encode_node :
      (n : Node)
      → IsNode n
      → AreCommitted n.children
      → (b : Block) × (encode_node c n ≡ ok b) × Carries c lawful b (node n)
  unfolding encode_node absorb_all absorb_doc absorb_doc_as assemble_doc bytes_eq to32 as_u64
      node_fields read_fields_of
  decode_doc-encode_node n sound a =
      let fs : List Field = node_fields n in
      let all : AllWritten fs = node_fields-AllWritten n sound a in
      (
        sealed_block c (written c schema_node fs),
        rw (child_fields-pairs n.children a) (
            encode_doc-sizes c lawful schema_node fs (omega arith) all (
              omega (
                arith,
                body_start_small c lawful,
                pairs-sizes n.children a,
                sound.route_32,
                sound.children_32,
              ))),
        decode_doc-written c lawful schema_node fs (node n) (omega arith) all (
            rw (length-32 n.route sound.route_32, absorb_all-pairs n.children _ a)
              (assemble_node-back n sound a)),
      )
