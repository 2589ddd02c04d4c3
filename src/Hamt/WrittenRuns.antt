-- ===== src/Hamt/WrittenRuns.antt =====
-- src/hamt.rs, `encode_extent`: within the limit of runs, the leaf fits and decodes to itself.
use manifestus.Base.{
  ℕ, suc, ◌+◌, ◌*◌, ◌≤◌, ◌<◌, ◌≡◌, ◌∙◌, refl, ap, true, false, List, [], ◌∷◌, ◌++◌, length,
  length-append, bytes_eq, ltb, ◌==◌, arith,
}
use mathlib.Core.List.{append_assoc, append-nil}
use manifestus.Error.{ok}
use manifestus.Block.{Block, block_bytes}
use manifestus.Ring.Codec.{Codec, IsLawful, hp, d, u, as_u64, text, word}
use manifestus.Ring.Document.{Field, field_bytes, body_start}
use manifestus.Ring.Entry.{to32}
use manifestus.Ring.Sealed.{sealed_block}
use manifestus.Ring.Readback.{AllWritten, absorb_all}
use manifestus.Ring.Size.{written, body_start_small, encode_doc-fits}
use manifestus.Hamt.Runs.{Extent}
use manifestus.Hamt.Leaf.{schema_extent, run_fields, max_runs, encode_extent}
use manifestus.Hamt.Doc.{
  extent, DocFields, absorb_doc, absorb_doc_as, assemble_doc, assemble_extent, zip,
}
use manifestus.Hamt.Written.{Carries, decode_doc-written, length-32}

abbrev starts : List Extent → List ℕ
starts [] = []
starts ((s, c) ∷ runs) = s ∷ starts runs

abbrev counts : List Extent → List ℕ
counts [] = []
counts ((s, c) ∷ runs) = c ∷ counts runs

zip-starts : (runs : List Extent) → zip (starts runs) (counts runs) ≡ runs
unfolding zip
zip-starts [] = refl
zip-starts ((s, c) ∷ runs) = ap (λ (rs : List Extent). (s, c) ∷ rs) (zip-starts runs)

starts-length : (runs : List Extent) → length (starts runs) ≡ length (counts runs)
starts-length [] = refl
starts-length ((s, c) ∷ runs) = ap suc (starts-length runs)

-- Positions and counts that a 64-bit field holds.
abbrev pub RunsAreWords : List Extent → Type 0
RunsAreWords [] = Unit {0}
RunsAreWords ((s, c) ∷ runs) = (s < word) × (c < word) × RunsAreWords runs

run_fields-AllWritten : (runs : List Extent) → RunsAreWords runs → AllWritten (run_fields runs)
unfolding run_fields
run_fields-AllWritten [] a = tt
run_fields-AllWritten ((s, c) ∷ runs) a =
    (omega arith, a.0, (omega arith, a.1, run_fields-AllWritten runs a.2))

absorb_all-run_fields :
    (runs : List Extent) (fs : DocFields)
    → absorb_all absorb_doc (run_fields runs) fs
      ≡ ok (record fs {
        run_starts = fs.run_starts ++ starts runs;
        run_counts = fs.run_counts ++ counts runs;
      })
unfolding absorb_all absorb_doc absorb_doc_as run_fields bytes_eq as_u64
absorb_all-run_fields [] fs = simp append-nil
absorb_all-run_fields ((s, c) ∷ runs) fs =
    absorb_all-run_fields runs
      (record fs { run_starts = fs.run_starts ++ s ∷ []; run_counts = fs.run_counts ++ c ∷ [] })
    ∙ (simp append_assoc)

module _ (c : Codec) (lawful : IsLawful c) where
  run_fields-bytes :
      (runs : List Extent)
      → RunsAreWords runs
      → length (field_bytes c (run_fields runs)) ≤ 32 * length runs
  unfolding field_bytes run_fields
  run_fields-bytes [] a = omega arith
  run_fields-bytes ((s, n) ∷ runs) a =
      let rest = field_bytes c (run_fields runs) in
      let ds = c.flatten (d (text "s")) in
      let dc = c.flatten (d (text "c")) in
      let us = c.flatten (u s) in
      let un = c.flatten (u n) in
      omega (
        arith,
        run_fields-bytes runs a.2,
        lawful.flatten_run (text "s") s refl a.0,
        lawful.flatten_run (text "c") n refl a.1,
        length-append {0} (ds ++ us) (dc ++ un ++ rest),
        length-append {0} ds us,
        length-append {0} (dc ++ un) rest,
        length-append {0} dc un,
      )

  extent_bytes :
      (key : List ℕ) (size : ℕ) (runs : List Extent)
      → length key ≡ 32
      → size < word
      → RunsAreWords runs
      → length (field_bytes c ((text "key", hp key) ∷ (text "size", u size) ∷ run_fields runs))
        ≤ 71 + 32 * length runs
  unfolding field_bytes
  extent_bytes key size runs k b a =
      let rest = field_bytes c (run_fields runs) in
      let dk = c.flatten (d (text "key")) in
      let hk = c.flatten (hp key) in
      let ds = c.flatten (d (text "size")) in
      let us = c.flatten (u size) in
      omega (
        arith,
        k,
        run_fields-bytes runs a,
        lawful.flatten_small (d (text "key")) (omega arith),
        lawful.flatten_small (hp key) k,
        lawful.flatten_small (d (text "size")) (omega arith),
        lawful.flatten_small (u size) b,
        length-append {0} (dk ++ hk) (ds ++ us ++ rest),
        length-append {0} dk hk,
        length-append {0} (ds ++ us) rest,
        length-append {0} ds us,
      )

  within_max : (n : ℕ) → n ≤ max_runs c → ltb (max_runs c) n ≡ false
  within_max n h = ground arith

  max_runs_bytes : (n : ℕ) → n ≤ max_runs c → body_start c + 94 + 32 * n ≤ block_bytes
  unfolding max_runs
  max_runs_bytes n h = omega (arith, body_start_small c lawful)

  -- Under a codec that obeys the laws, an extent leaf within the limit of runs, of words of 64 bits,
  -- is written into one block, and that block decodes to the key, the size and the runs.
  pub decode_doc-encode_extent :
      (key : List ℕ) (size : ℕ) (runs : List Extent)
      → length key ≡ 32
      → size < word
      → RunsAreWords runs
      → length runs ≤ max_runs c
      → (b : Block) × (encode_extent c key size runs ≡ ok b)
        × Carries c lawful b (extent key size runs)
  unfolding encode_extent absorb_all absorb_doc absorb_doc_as assemble_doc assemble_extent bytes_eq
      to32 as_u64
  decode_doc-encode_extent key size runs k s a m =
      let fs : List Field = (text "key", hp key) ∷ (text "size", u size) ∷ run_fields runs in
      let all : AllWritten fs = (omega arith, k, (omega arith, s, run_fields-AllWritten runs a)) in
      let even : (length (starts runs) == length (counts runs)) ≡ true =
        ground (arith, starts-length runs) in
      (
        sealed_block c (written c schema_extent fs),
        rw (within_max (length runs) m) (
            encode_doc-fits c lawful schema_extent fs (omega arith)
              (omega (arith, extent_bytes key size runs k s a, max_runs_bytes (length runs) m))),
        decode_doc-written c lawful schema_extent fs (extent key size runs) (omega arith) all
            (rw (length-32 key k, absorb_all-run_fields runs, even, zip-starts runs) refl),
      )
