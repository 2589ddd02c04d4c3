-- ===== src/Examples/Content.antt =====
-- A disk with two leaves and a committed node: what its blocks decode to, and that the node is routed.
use manifestus.Base.{
  ℕ, zero, suc, ◌+◌, ◌≡◌, ◌∙◌, refl, sym, subst, true, none, some, List, [], ◌∷◌, replicate,
  get_elem?, bytes_eq, arith,
}
use manifestus.Error.{Result, ok, err, stuck, corrupt}
use manifestus.Block.{Block, zero_block}
use manifestus.Mirror.State.{Mirror, staged, last_at}
use manifestus.Mirror.Stable.{IsStable}
use manifestus.Ring.Document.{
  sealed_hp, open_seal, encode_doc, read_fields, fill_doc, copy_at, hp_len, body_start, put_fields,
  seal_doc, read_field,
}
use manifestus.Ring.Codec.{as_u64}
use manifestus.Ring.Entry.{to32}
use manifestus.Tract.{Tract}
use manifestus.Hamt.Walk.{chunk, window, byte_at}
use manifestus.Hamt.Leaf.{Child, committed, Node, encode_lone, encode_node, lone_capacity}
use manifestus.Hamt.Doc.{
  TractDoc, node, lone, extent, direct, furrow, doc_of, decode_doc, doc_schema, check_pointed,
  pointed, past_tract,
}
use manifestus.Hamt.State.{Hamt, empty}
use manifestus.Hamt.Steady.{docs_on, docs_on-decode_doc}
use manifestus.Hamt.Keys.{IsKey}
use manifestus.Hamt.Frame.{Agree, DocPlaced, SlotPlaced, StandsAt, IsTrie, IsRouted, DocsRouted}
use manifestus.Hamt.Split.{LeafAt, IsLeafOf}
use manifestus.Hamt.Engine.{LeafKeys}
use manifestus.Examples.Index.{key_a, key_b, key_a-IsKey, key_b-IsKey}
use manifestus.Examples.Toy.{toy}
use manifestus.Examples.Disk.{Disk, medium}

abbrev pub tract : Tract
tract = record { base = 4; len = 8; plow = 4; reap = 0; fence_limit = none }

abbrev block_or : Result Block → Block
block_or (ok b) = b
block_or (err e) = []
block_or stuck = []

abbrev leaf_a : Block
leaf_a = block_or (encode_lone toy key_a (7 ∷ []))

abbrev leaf_b : Block
leaf_b = block_or (encode_lone toy key_b (8 ∷ []))

abbrev pub hash_a : List ℕ
hash_a = 2456 ∷ replicate 31 0

abbrev pub hash_b : List ℕ
hash_b = 2458 ∷ replicate 31 0

abbrev pub root_node : Node
root_node = record {
  depth = 0;
  route = replicate 32 0;
  children = some (committed hash_a 1) ∷ replicate 31 none;
}

abbrev node_block : Block
node_block = block_or (encode_node toy root_node)

abbrev pub node_hash : List ℕ
node_hash = 6483 ∷ replicate 31 0

-- The leaves stand at the positions 1 and 2 of the tract, the node at 3.
abbrev pub blocks : ℕ → Block
blocks (suc (suc (suc (suc (suc zero))))) = leaf_a
blocks (suc (suc (suc (suc (suc (suc zero)))))) = leaf_b
blocks (suc (suc (suc (suc (suc (suc (suc zero))))))) = node_block
blocks _ = []

a_decodes : decode_doc toy leaf_a ≡ ok (lone key_a (7 ∷ []))
unfolding decode_doc doc_schema sealed_hp open_seal check_pointed pointed past_tract encode_lone
    encode_node encode_doc zero_block bytes_eq read_fields lone_capacity fill_doc copy_at replicate
    hp_len body_start put_fields seal_doc read_field to32 as_u64
a_decodes = refl

b_decodes : decode_doc toy leaf_b ≡ ok (lone key_b (8 ∷ []))
unfolding decode_doc doc_schema sealed_hp open_seal check_pointed pointed past_tract encode_lone
    encode_node encode_doc zero_block bytes_eq read_fields lone_capacity fill_doc copy_at replicate
    hp_len body_start put_fields seal_doc read_field to32 as_u64
b_decodes = refl

node_decodes : decode_doc toy node_block ≡ ok (node root_node)
unfolding decode_doc doc_schema sealed_hp open_seal check_pointed pointed past_tract encode_lone
    encode_node encode_doc zero_block bytes_eq read_fields lone_capacity fill_doc copy_at replicate
    hp_len body_start put_fields seal_doc read_field to32 as_u64
node_decodes = refl

empty_decodes : decode_doc toy [] ≡ err (corrupt "vsf parse")
unfolding decode_doc doc_schema sealed_hp open_seal check_pointed pointed past_tract encode_lone
    encode_node encode_doc zero_block bytes_eq read_fields lone_capacity fill_doc copy_at replicate
    hp_len body_start put_fields seal_doc read_field to32 as_u64
empty_decodes = refl

b_named : docs_on toy blocks tract 2 hash_b ≡ ok (some (lone key_b (8 ∷ [])))
unfolding docs_on doc_of decode_doc doc_schema sealed_hp open_seal check_pointed pointed past_tract
    encode_lone encode_node encode_doc zero_block bytes_eq read_fields lone_capacity fill_doc
    copy_at replicate hp_len body_start put_fields seal_doc read_field to32 as_u64
b_named = refl

pub a_named : docs_on toy blocks tract 1 hash_a ≡ ok (some (lone key_a (7 ∷ [])))
unfolding docs_on doc_of decode_doc doc_schema sealed_hp open_seal check_pointed pointed past_tract
    encode_lone encode_node encode_doc zero_block bytes_eq read_fields lone_capacity fill_doc
    copy_at replicate hp_len body_start put_fields seal_doc read_field to32 as_u64
a_named = refl

pub node_named : docs_on toy blocks tract 3 node_hash ≡ ok (some (node root_node))
unfolding docs_on doc_of decode_doc doc_schema sealed_hp open_seal check_pointed pointed past_tract
    encode_lone encode_node encode_doc zero_block bytes_eq read_fields lone_capacity fill_doc
    copy_at replicate hp_len body_start put_fields seal_doc read_field to32 as_u64
node_named = refl

-- The document at a position, if it has one.
abbrev Named : ℕ → TractDoc → Type 0
Named (suc zero) doc = lone key_a (7 ∷ []) ≡ doc
Named (suc (suc zero)) doc = lone key_b (8 ∷ []) ≡ doc
Named (suc (suc (suc zero))) doc = node root_node ≡ doc
Named _ doc = ⊥

Named-decodes :
    (lba : ℕ) (doc : TractDoc) → decode_doc toy (blocks (4 + lba)) ≡ ok doc → Named lba doc
Named-decodes zero doc e = cc (sym empty_decodes ∙ e)
Named-decodes (suc zero) doc e = cc (sym a_decodes ∙ e)
Named-decodes (suc (suc zero)) doc e = cc (sym b_decodes ∙ e)
Named-decodes (suc (suc (suc zero))) doc e = cc (sym node_decodes ∙ e)
Named-decodes (suc (suc (suc (suc n)))) doc e =
    let far : 4 + suc (suc (suc (suc n))) ≡ suc (suc (suc (suc (suc (suc (suc (suc n))))))) =
      omega arith in
    let there : decode_doc toy (blocks (suc (suc (suc (suc (suc (suc (suc (suc n))))))))) ≡ ok doc =
      subst (λ i. decode_doc toy (blocks i) ≡ ok doc) far e in
    cc (sym empty_decodes ∙ there)

named :
    (lba : ℕ) (hash : List ℕ) (doc : TractDoc)
    → docs_on toy blocks tract lba hash ≡ ok (some doc)
    → Named lba doc
named lba hash doc e = Named-decodes lba doc (docs_on-decode_doc toy blocks tract lba hash doc e)

no_child : (n s : ℕ) (x : Child) → get_elem? (replicate n none) s ≡ some (some x) → ⊥
unfolding replicate
no_child zero s x e = cc e
no_child (suc n) zero x e = cc e
no_child (suc n) (suc s) x e = no_child n s x e

chunk_a : chunk key_a 0 ≡ 0
unfolding chunk window byte_at replicate
chunk_a = refl

on_path : (key : List ℕ) → chunk key 0 ≡ 0 → Agree 1 key key_a
on_path key h zero small = h ∙ sym chunk_a
on_path key h (suc i) small = absurd (omega arith)

first_leaf :
    (key : List ℕ)
    → chunk key 0 ≡ 0
    → StandsAt (docs_on toy blocks tract) [] 1 key (committed hash_a 1)
first_leaf key h doc f =
    subst (λ y. DocPlaced (docs_on toy blocks tract) 1 key y) (named 1 hash_a doc f) (on_path key h)

-- The leaf of the node stands where the node's slot says.
root_node-IsRouted : IsRouted (docs_on toy blocks tract) [] root_node
root_node-IsRouted zero x key e g h =
    let same : committed hash_a 1 ≡ x = cc e in
    subst (λ y. StandsAt (docs_on toy blocks tract) [] 1 key y) same (first_leaf key h)
root_node-IsRouted (suc s) x key e g h = absurd (no_child 31 s x e)

pub routed : DocsRouted (docs_on toy blocks tract)
routed lba hash n e = go lba (named lba hash (node n) e)
  where
    go : (lba : ℕ) → Named lba (node n) → IsRouted (docs_on toy blocks tract) [] n
    go zero q = absurd q
    go (suc zero) q = absurd (cc q)
    go (suc (suc zero)) q = absurd (cc q)
    go (suc (suc (suc zero))) q =
        let same : root_node ≡ n = cc q in
        subst (λ y. IsRouted (docs_on toy blocks tract) [] y) same root_node-IsRouted
    go (suc (suc (suc (suc i)))) q = absurd q

pub leaf_keys : LeafKeys (docs_on toy blocks tract)
leaf_keys lba hash k at = go lba at.doc at.leaf (named lba hash at.doc at.named)
  where
    go :
        (lba : ℕ) (doc : TractDoc)
        → IsLeafOf (docs_on toy blocks tract) k doc
        → Named lba doc
        → IsKey k
    go zero doc p q = absurd q
    go (suc zero) doc p q =
        let same : key_a ≡ k = subst (λ x. IsLeafOf (docs_on toy blocks tract) k x) (sym q) p in
        subst IsKey same key_a-IsKey
    go (suc (suc zero)) doc p q =
        let same : key_b ≡ k = subst (λ x. IsLeafOf (docs_on toy blocks tract) k x) (sym q) p in
        subst IsKey same key_b-IsKey
    go (suc (suc (suc zero))) doc p q =
        absurd (subst (λ x. IsLeafOf (docs_on toy blocks tract) k x) (sym q) p)
    go (suc (suc (suc (suc i)))) doc p q = absurd q

pub new_leaf : LeafAt (docs_on toy blocks tract) key_b 2 hash_b
new_leaf = record { doc = lone key_b (8 ∷ []); named = b_named; leaf = refl }

abbrev pub store : Mirror Disk Disk
store = record {
  a = some blocks;
  b = none;
  degraded = true;
  events = [];
  pending = [];
  cache = [];
  uses = 0;
}

abbrev pub index : Hamt
index = record empty { root = some (committed node_hash 3) }

pub store-IsStable : IsStable medium medium blocks store
unfolding staged last_at
store-IsStable = record { staging = λ j b e. absurd (cc e); stored = λ j e. refl; cached = tt }

pub no_nodes : IsTrie (docs_on toy blocks tract) []
no_nodes i n e = absurd (cc e)

pub root_placed : (key : List ℕ) → SlotPlaced (docs_on toy blocks tract) [] 0 key index.root
root_placed key doc e = placed doc
  where
    placed : (doc : TractDoc) → DocPlaced (docs_on toy blocks tract) 0 key doc
    placed (node n) = λ q i small. absurd (omega arith)
    placed (lone k v) = λ i small. absurd (omega arith)
    placed (direct k s f) = λ i small. absurd (omega arith)
    placed (extent k s r) = λ i small. absurd (omega arith)
    placed (furrow k i p) = tt
