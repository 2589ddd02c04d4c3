-- ===== src/Hamt/Steady.antt =====
-- src/hamt.rs on healthy devices: `read_doc` over a mirror whose readers see `blocks`.
use manifestus.Base.{
  ℕ, ◌+◌, ◌≡◌, refl, ap, Bool, true, false, Option, none, some, List, leb, not, bytes_eq,
  if◌then◌else◌,
}
use manifestus.Error.{
  Result, ok, err, stuck, bounds, corrupt, seal, and_then, continue, ◌>>=◌, lift,
}
use manifestus.Block.{Block, zero_block}
use manifestus.Media.{Medium}
use manifestus.Mirror.State.{Mirror}
use manifestus.Mirror.Stable.{IsStable, Shows, read_cached-Shows}
use manifestus.Ring.Codec.{Codec}
use manifestus.Ring.Document.{sealed_hp}
use manifestus.Ring.Opened.{IsHealthy}
use manifestus.Tract.{Tract, read_cached}
use manifestus.Hamt.Doc.{TractDoc, doc_of, decode_doc, check_pointed, past_tract, pointed}
use manifestus.Hamt.Store.{read_doc}
use manifestus.Hamt.Seek.{IsSteady}

module _ (c : Codec) (blocks : ℕ → Block) (t : Tract) where
  -- What the pointers name on these blocks.
  unfoldable pub docs_on : ℕ → List ℕ → Result (Option TractDoc)
  unfolding doc_of
  docs_on lba hash =
      if leb t.len lba then err (bounds lba) else doc_of c (blocks (t.base + lba)) hash t.len

module _ (c : Codec) {A B : Type 0} (ma : Medium A) (mb : Medium B) (blocks : ℕ → Block) (t : Tract)
    (healthy_a : IsHealthy ma) (healthy_b : IsHealthy mb) where
  abbrev Stable : Mirror A B → Type 0
  Stable m = IsStable ma mb blocks m

  doc_read :
      (lba : ℕ) (hash : List ℕ) (x : Result Block × Mirror A B)
      → Shows ma mb blocks healthy_a healthy_b x (blocks (t.base + lba))
      → ((continue (λ (buf : Block). lift (doc_of c buf hash t.len)) x).0
          ≡ doc_of c (blocks (t.base + lba)) hash t.len)
        × Stable (continue (λ (buf : Block). lift (doc_of c buf hash t.len)) x).1
  doc_read lba hash (ok b, m) (e, s) =
      let same : b ≡ blocks (t.base + lba) = cc e in
      (ap (λ (z : Block). doc_of c z hash t.len) same, s)
  doc_read lba hash (err x, m) (e, s) = absurd (cc e)
  doc_read lba hash (stuck, m) (e, s) = absurd (cc e)

  -- The engine's reads of documents are steady on healthy devices.
  pub read_doc-IsSteady : IsSteady (read_doc c ma.dev mb.dev t) Stable (docs_on c blocks t)
  unfolding read_doc docs_on read_cached ◌>>=◌
  read_doc-IsSteady lba hash m s =
      go (leb t.len lba) (read_cached-Shows ma mb blocks healthy_a healthy_b (t.base + lba) m s)
    where
      found : Mirror A B → Result Block × Mirror A B
      found m = manifestus.Mirror.Reads.read_cached ma.dev mb.dev (t.base + lba) m

      go :
          (out : Bool)
          → Shows ma mb blocks healthy_a healthy_b (found m) (blocks (t.base + lba))
          → ((continue
                (λ (buf : Block). lift (doc_of c buf hash t.len))
                (if out then (err (bounds lba), m) else found m)).0
              ≡ (if out then err (bounds lba) else doc_of c (blocks (t.base + lba)) hash t.len))
            × Stable
                (continue
                  (λ (buf : Block). lift (doc_of c buf hash t.len))
                  (if out then (err (bounds lba), m) else found m)).1
      go true e = (refl, s)
      go false e = doc_read lba hash (found m) e

-- A pointer that names a document names what the block decodes to.
pub docs_on-decode_doc :
    (c : Codec) (blocks : ℕ → Block) (t : Tract) (lba : ℕ) (hash : List ℕ) (doc : TractDoc)
    → docs_on c blocks t lba hash ≡ ok (some doc)
    → decode_doc c (blocks (t.base + lba)) ≡ ok doc
unfolding docs_on doc_of check_pointed
docs_on-decode_doc c blocks t lba hash doc =
    go (leb t.len lba) (bytes_eq block zero_block) (sealed_hp c block)
  where
    block : Block
    block = blocks (t.base + lba)

    pointed_to :
        (far : Bool) (d : TractDoc)
        → (if far then err (corrupt "block points past the tract") else ok (some d)) ≡ ok (some doc)
        → d ≡ doc
    pointed_to true d e = absurd (cc e)
    pointed_to false d e = cc e

    decoded : (r : Result TractDoc) → and_then r (check_pointed t.len) ≡ ok (some doc) → r ≡ ok doc
    decoded (ok d) e = ap (λ x. ok x) (pointed_to (past_tract t.len (pointed d)) d e)
    decoded (err x) e = absurd (cc e)
    decoded stuck e = absurd (cc e)

    same :
        (b : Bool)
        → (if b then err seal else and_then (decode_doc c block) (check_pointed t.len))
          ≡ ok (some doc)
        → decode_doc c block ≡ ok doc
    same true e = absurd (cc e)
    same false e = decoded (decode_doc c block) e

    sealed :
        (o : Option (List ℕ))
        → (elim o as (λ _. Result (Option TractDoc)) [
          | none ↦ err (corrupt "unsealed block")
          | some h ↦
              if not (bytes_eq h hash)
              then err seal
              else and_then (decode_doc c block) (check_pointed t.len)
        ])
          ≡ ok (some doc)
        → decode_doc c block ≡ ok doc
    sealed none e = absurd (cc e)
    sealed (some h) e = same (not (bytes_eq h hash)) e

    go :
        (far zeroed : Bool) (o : Option (List ℕ))
        → (if far
            then err (bounds lba)
            else (if zeroed then ok none else elim o as (λ _. Result (Option TractDoc)) [
              | none ↦ err (corrupt "unsealed block")
              | some h ↦
                  if not (bytes_eq h hash)
                  then err seal
                  else and_then (decode_doc c block) (check_pointed t.len)
            ]))
          ≡ ok (some doc)
        → decode_doc c block ≡ ok doc
    go true zeroed o e = absurd (cc e)
    go false true o e = absurd (cc e)
    go false false o e = sealed o e
