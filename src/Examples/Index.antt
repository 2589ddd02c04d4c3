-- ===== src/Examples/Index.antt =====
-- The theorems on the index, at an index of two leaves.
use manifestus.Base.{
  ℕ, zero, suc, ◌<◌, ◌≡◌, ◌≢◌, refl, Option, none, some, List, [], ◌∷◌, replicate, bytes_eq,
  ne_of_bytes_eq, arith,
}
use manifestus.Error.{Result, ok}
use manifestus.Block.{Block}
use manifestus.Ring.Document.{body_start, hp_len}
use manifestus.Hamt.Walk.{chunk}
use manifestus.Hamt.Runs.{Extent}
use manifestus.Hamt.Leaf.{
  Child, committed, Node, lone_capacity, furrow_capacity, max_runs, encode_lone, encode_extent,
  encode_furrow, encode_node,
}
use manifestus.Hamt.Doc.{TractDoc, node, lone, extent, furrow}
use manifestus.Hamt.State.{Hamt, empty}
use manifestus.Hamt.Trie.{split}
use manifestus.Hamt.Keys.{IsKey, AreBytes}
use manifestus.Hamt.Written.{Carries, decode_doc-encode_lone, decode_doc-encode_furrow}
use manifestus.Hamt.WrittenRuns.{decode_doc-encode_extent}
use manifestus.Hamt.WrittenNode.{decode_doc-encode_node}
use manifestus.Hamt.Seek.{leaf_found, seek}
use manifestus.Hamt.Frame.{IsTrie, DocsRouted}
use manifestus.Hamt.Split.{LeafAt}
use manifestus.Hamt.Index.{chunk-diverges, split-seek}
use manifestus.Examples.Toy.{toy, toy-IsLawful}

abbrev pub key_a : List ℕ
key_a = replicate 32 0

abbrev pub key_b : List ℕ
key_b = 0 ∷ 1 ∷ replicate 30 0

abbrev key_c : List ℕ
key_c = 200 ∷ replicate 31 0

AreBytes-replicate : (n b : ℕ) → b < 256 → AreBytes (replicate n b)
unfolding replicate
AreBytes-replicate zero b h = tt
AreBytes-replicate (suc n) b h = (h, AreBytes-replicate n b h)

pub key_a-IsKey : IsKey key_a
unfolding replicate
key_a-IsKey = record { length_32 = refl; bytes = AreBytes-replicate 32 0 (omega arith) }

pub key_b-IsKey : IsKey key_b
unfolding replicate
key_b-IsKey = record {
  length_32 = refl;
  bytes = (omega arith, (omega arith, AreBytes-replicate 30 0 (omega arith)));
}

key_c-IsKey : IsKey key_c
unfolding replicate
key_c-IsKey = record {
  length_32 = refl;
  bytes = (omega arith, AreBytes-replicate 31 0 (omega arith));
}

pub b_is_not_a : key_b ≢ key_a
unfolding bytes_eq replicate
b_is_not_a = ne_of_bytes_eq key_b key_a refl

pub a_is_not_b : key_a ≢ key_b
unfolding bytes_eq replicate
a_is_not_b = ne_of_bytes_eq key_a key_b refl

-- Position 0 has the leaf of the first key, position 1 that of the second, nothing else.
abbrev docs : ℕ → List ℕ → Result (Option TractDoc)
docs zero hash = ok (some (lone key_a (7 ∷ [])))
docs (suc zero) hash = ok (some (lone key_b (8 ∷ [])))
docs (suc (suc n)) hash = ok none

leaf_a : LeafAt docs key_a 0 []
leaf_a = record { doc = lone key_a (7 ∷ []); named = refl; leaf = refl }

leaf_b : LeafAt docs key_b 1 []
leaf_b = record { doc = lone key_b (8 ∷ []); named = refl; leaf = refl }

docs-routed : DocsRouted docs
docs-routed zero hash n e = absurd (cc e)
docs-routed (suc zero) hash n e = absurd (cc e)
docs-routed (suc (suc i)) hash n e = absurd (cc e)

no_nodes : IsTrie docs []
no_nodes i n e = absurd (cc e)

abbrev two_runs : List Extent
two_runs = (9, 3) ∷ (0, 1) ∷ []

-- A node with one child.
abbrev parent : Node
parent = record {
  depth = 0;
  route = key_a;
  children = none ∷ some (committed key_b 5) ∷ replicate 30 none;
}

decode_doc-encode_lone_example :
    (b : Block) × (encode_lone toy key_a (7 ∷ 8 ∷ []) ≡ ok b)
    × Carries toy toy-IsLawful b (lone key_a (7 ∷ 8 ∷ []))
unfolding lone_capacity body_start hp_len
decode_doc-encode_lone_example =
    decode_doc-encode_lone toy toy-IsLawful key_a (7 ∷ 8 ∷ []) key_a-IsKey.length_32 (omega arith)

decode_doc-encode_furrow_example :
    (b : Block) × (encode_furrow toy key_b 3 (7 ∷ 8 ∷ []) ≡ ok b)
    × Carries toy toy-IsLawful b (furrow key_b 3 (7 ∷ 8 ∷ []))
unfolding furrow_capacity body_start hp_len
decode_doc-encode_furrow_example =
    decode_doc-encode_furrow toy toy-IsLawful key_b 3 (7 ∷ 8 ∷ []) key_b-IsKey.length_32
      (omega arith) (omega arith)

decode_doc-encode_extent_example :
    (b : Block) × (encode_extent toy key_a 9000 two_runs ≡ ok b)
    × Carries toy toy-IsLawful b (extent key_a 9000 two_runs)
unfolding max_runs body_start hp_len
decode_doc-encode_extent_example =
    decode_doc-encode_extent toy toy-IsLawful key_a 9000 two_runs key_a-IsKey.length_32
      (omega arith) (omega arith, omega arith, (omega arith, omega arith, tt)) (omega arith)

decode_doc-encode_node_example :
    (b : Block) × (encode_node toy parent ≡ ok b) × Carries toy toy-IsLawful b (node parent)
unfolding replicate
decode_doc-encode_node_example =
    decode_doc-encode_node toy toy-IsLawful parent
      (record { depth_small = omega arith; route_32 = refl; children_32 = refl })
      (key_b-IsKey.length_32, omega arith, tt)

chunk-diverges_example : (d : ℕ) × (d < 52) × (chunk key_a d ≢ chunk key_b d)
chunk-diverges_example = chunk-diverges key_a key_b key_a-IsKey key_b-IsKey a_is_not_b

split-seek_example :
    (r : Child) × (h' : Hamt) × (split 52 0 key_a (committed [] 0) key_b (committed [] 1) empty
      ≡ (ok r, h'))
    × (seek docs h'.arena key_b 53 0 r ≡ ok (some (1, [])))
    × (seek docs h'.arena key_a 53 0 r ≡ leaf_found key_a key_a 0 [])
split-seek_example =
    split-seek docs docs-routed key_a 0 [] key_b 1 [] leaf_a leaf_b key_a-IsKey key_b-IsKey
      a_is_not_b 52 0 empty refl (λ i h. absurd (omega arith)) no_nodes key_a a_is_not_b
      (λ i h. absurd (omega arith))
