-- ===== src/Hamt/Recorded.antt =====
-- src/hamt.rs on healthy devices: what `remove_leaf_blocks` records, and what it leaves.
use manifestus.Base.{
  ℕ, ◌+◌, ◌<◌, ◌≡◌, ◌∙◌, refl, sym, ap, subst, Bool, true, false, Option, none, some, List, [], ◌∷◌,
  ◌++◌, leb, if◌then◌else◌, arith,
}
use mathlib.Core.List.{append_assoc, append-nil}
use manifestus.Error.{Result, Run, ok, err, stuck, bounds, continue, ◌>>=◌, ◌>>◌, lift}
use manifestus.Block.{Block}
use manifestus.Media.{Medium}
use manifestus.Mirror.State.{Mirror}
use manifestus.Mirror.Stable.{IsStable, Shows, read-Shows}
use manifestus.Ring.Codec.{Codec}
use manifestus.Ring.Document.{sealed_hp}
use manifestus.Ring.Opened.{IsHealthy}
use manifestus.Tract
use manifestus.Tract.{Tract, read_cached}
use manifestus.Hamt.Doc.{TractDoc}
use manifestus.Hamt.State.{Hamt, push_removed, beside}
use manifestus.Hamt.Store.{read_doc, push_sealed, remove_furrows, furrows_of, remove_leaf_blocks}
use manifestus.Hamt.Extent.{AllBelow}
use manifestus.Hamt.Insert.{IsQuiet}
use manifestus.Hamt.Retire.{Held, remove_leaf_blocks-Keeps}
use manifestus.Hamt.Steady.{docs_on, read_doc-IsSteady}

module _ (c : Codec) (blocks : ℕ → Block) (t : Tract) where
  abbrev pub sealed_entry : ℕ → Option (List ℕ) → List (ℕ × List ℕ)
  sealed_entry lba none = []
  sealed_entry lba (some hash) = (lba, hash) ∷ []

  -- The positions that hold a sealed block, each with its seal.
  abbrev pub sealed_at : List ℕ → List (ℕ × List ℕ)
  sealed_at [] = []
  sealed_at (f ∷ fs) = sealed_entry f (sealed_hp c (blocks (t.base + f))) ++ sealed_at fs

abbrev pub removing : List (ℕ × List ℕ) → Hamt → Hamt
removing xs h = record h { delta = record h.delta { removed = h.delta.removed ++ xs } }

module _ (c : Codec) {A B : Type 0} (ma : Medium A) (mb : Medium B) (blocks : ℕ → Block) (t : Tract)
    (healthy_a : IsHealthy ma) (healthy_b : IsHealthy mb) where
  abbrev Stable : Mirror A B → Type 0
  Stable m = IsStable ma mb blocks m

  abbrev reading : ℕ → Run (Mirror A B) Block
  reading f = Tract.read ma.dev mb.dev t f

  -- A read of a furrow, from a position of the tract or past it.
  furrow_read :
      (f : ℕ) (m : Mirror A B)
      → Stable m
      → Stable (reading f m).1 × (f < t.len → (reading f m).0 ≡ ok (blocks (t.base + f)))
  unfolding Tract.read
  furrow_read f m s = go (leb t.len f) refl
    where
      found : Result Block × Mirror A B
      found = manifestus.Mirror.Reads.read ma.dev mb.dev (t.base + f) m

      shown : Shows ma mb blocks healthy_a healthy_b found (blocks (t.base + f))
      shown = read-Shows ma mb blocks healthy_a healthy_b (t.base + f) m s

      go :
          (out : Bool)
          → leb t.len f ≡ out
          → Stable (if out then (err (bounds f), m) else found).1
            × (f < t.len
                → (if out then (err (bounds f), m) else found).0 ≡ ok (blocks (t.base + f)))
      go true e = (s, λ inside. absurd (ground arith))
      go false e = (shown.1, λ inside. shown.0)

  abbrev Removed : List ℕ → Hamt → Result (Unit {0}) × (Hamt × Mirror A B) → Type 0
  Removed fs h x =
      Stable x.1.1
      × (AllBelow t.len fs → (x.0 ≡ ok tt) × (x.1.0 ≡ removing (sealed_at c blocks t fs) h))

  -- The step for one furrow: what it was sealed with is recorded, then the rest.
  one-Removed :
      (f : ℕ) (fs : List ℕ) (h : Hamt) (x : Result Block × Mirror A B)
      → Stable x.1
      → (f < t.len → x.0 ≡ ok (blocks (t.base + f)))
      → ((h : Hamt) (m : Mirror A B)
          → Stable m
          → Removed fs h (remove_furrows c ma.dev mb.dev t fs (h, m)))
      → Removed (f ∷ fs) h (
          continue
            (λ buf.
              push_sealed c ma.dev mb.dev t f (sealed_hp c buf)
              >> remove_furrows c ma.dev mb.dev t fs)
            (beside h x))
  unfolding ◌>>◌
  one-Removed f fs h (ok b, m) s e ih = go (sealed_hp c b) refl
    where
      go :
          (o : Option (List ℕ))
          → sealed_hp c b ≡ o
          → Removed
              (f ∷ fs)
              h
              ((push_sealed c ma.dev mb.dev t f o >> remove_furrows c ma.dev mb.dev t fs) (h, m))
      go none q = (
        (ih h m s).0,
        λ (inside, rest).
            let here : b ≡ blocks (t.base + f) = cc (e inside) in
            let (done, same) = (ih h m s).1 rest in
            (
              done,
              same
                  ∙ ap (λ o. removing (sealed_entry c blocks t f o ++ sealed_at c blocks t fs) h)
                      (sym q ∙ ap (sealed_hp c) here),
            ),
      )
      go (some hash) q = (
        (ih (push_removed f hash h) m s).0,
        λ (inside, rest).
            let here : b ≡ blocks (t.base + f) = cc (e inside) in
            let (done, same) = (ih (push_removed f hash h) m s).1 rest in
            (
              done,
              same
                  ∙ ap (λ xs. record h { delta = record h.delta { removed = xs } })
                      (append_assoc h.delta.removed ((f, hash) ∷ []) (sealed_at c blocks t fs))
                  ∙ ap (λ o. removing (sealed_entry c blocks t f o ++ sealed_at c blocks t fs) h)
                      (sym q ∙ ap (sealed_hp c) here),
            ),
      )
  one-Removed f fs h (err x, m) s e ih = (s, λ (inside, rest). absurd (cc (e inside)))
  one-Removed f fs h (stuck, m) s e ih = (s, λ (inside, rest). absurd (cc (e inside)))

  remove_furrows-Removed :
      (fs : List ℕ) (h : Hamt) (m : Mirror A B)
      → Stable m
      → Removed fs h (remove_furrows c ma.dev mb.dev t fs (h, m))
  unfolding remove_furrows ◌>>=◌
  remove_furrows-Removed [] h m s = (s, λ i. (refl, nothing_removed h))
    where
      nothing_removed : (h : Hamt) → h ≡ removing [] h
      nothing_removed h =
          ap (λ xs. record h { delta = record h.delta { removed = xs } })
            (sym (append-nil h.delta.removed))
  remove_furrows-Removed (f ∷ fs) h m s =
      one-Removed f fs h (reading f m) (furrow_read f m s).0 (furrow_read f m s).1
        (remove_furrows-Removed fs)

  abbrev furrows : Option TractDoc → Result (List ℕ)
  furrows doc = furrows_of c ma.dev mb.dev t doc

  doc_removed :
      (h : Hamt) (m : Mirror A B)
      → Stable m
      → (r : Result (List ℕ))
      → Stable (continue (remove_furrows c ma.dev mb.dev t) (r, (h, m))).1.1
        × ((fs : List ℕ)
            → r ≡ ok fs
            → AllBelow t.len fs
            → ((continue (remove_furrows c ma.dev mb.dev t) (r, (h, m))).0 ≡ ok tt)
              × ((continue (remove_furrows c ma.dev mb.dev t) (r, (h, m))).1.0
                  ≡ removing (sealed_at c blocks t fs) h))
  doc_removed h m s (ok ps) = (
    (remove_furrows-Removed ps h m s).0,
    λ fs e below.
        let same : ps ≡ fs = cc e in
        let (done, x) =
          (remove_furrows-Removed ps h m s).1 (subst (λ z. AllBelow t.len z) (sym same) below) in
        (done, x ∙ ap (λ z. removing (sealed_at c blocks t z) h) same),
  )
  doc_removed h m s (err e) = (s, λ fs q. absurd (cc q))
  doc_removed h m s stuck = (s, λ fs q. absurd (cc q))

  leaf_removed :
      (h : Hamt) (x : Result (Option TractDoc) × Mirror A B) (doc : Result (Option TractDoc))
      → x.0 ≡ doc
      → Stable x.1
      → Stable
          (continue (λ d. lift (furrows d) >>= remove_furrows c ma.dev mb.dev t) (beside h x)).1.1
        × ((d : Option TractDoc) (fs : List ℕ)
            → doc ≡ ok d
            → furrows d ≡ ok fs
            → AllBelow t.len fs
            → ((continue
                  (λ d. lift (furrows d) >>= remove_furrows c ma.dev mb.dev t)
                  (beside h x)).0
                ≡ ok tt)
              × ((continue
                    (λ d. lift (furrows d) >>= remove_furrows c ma.dev mb.dev t)
                    (beside h x)).1.0
                  ≡ removing (sealed_at c blocks t fs) h))
  unfolding ◌>>=◌
  leaf_removed h (ok d, m) doc e s = (
    (doc_removed h m s (furrows d)).0,
    λ d' fs q.
        let same : d' ≡ d = cc (sym q ∙ sym e) in
        λ named below. (doc_removed h m s (furrows d)).1 fs (sym (ap furrows same) ∙ named) below,
  )
  leaf_removed h (err x, m) doc e s = (s, λ d fs q. absurd (cc (e ∙ q)))
  leaf_removed h (stuck, m) doc e s = (s, λ d fs q. absurd (cc (e ∙ q)))

  removed_all :
      (lba : ℕ) (hash : List ℕ) (h : Hamt) (m : Mirror A B)
      → Stable m
      → Stable (remove_leaf_blocks c ma.dev mb.dev t lba hash (h, m)).1.1
        × ((d : Option TractDoc) (fs : List ℕ)
            → docs_on c blocks t lba hash ≡ ok d
            → furrows d ≡ ok fs
            → AllBelow t.len fs
            → ((remove_leaf_blocks c ma.dev mb.dev t lba hash (h, m)).0 ≡ ok tt)
              × ((remove_leaf_blocks c ma.dev mb.dev t lba hash (h, m)).1.0
                  ≡ removing (sealed_at c blocks t fs) (push_removed lba hash h)))
  unfolding remove_leaf_blocks ◌>>=◌ ◌>>◌
  removed_all lba hash h m s =
      let (e, after) = read_doc-IsSteady c ma mb blocks t healthy_a healthy_b lba hash m s in
      leaf_removed (push_removed lba hash h) (read_doc c ma.dev mb.dev t lba hash m)
        (docs_on c blocks t lba hash) e after

  -- The engine's retiring of a leaf leaves the arena, and what readers see.
  pub remove_leaf_blocks-IsQuiet : IsQuiet (remove_leaf_blocks c ma.dev mb.dev t) Stable
  remove_leaf_blocks-IsQuiet lba hash (h, m) s' run s = (
    ap (λ (x : Result (Unit {0}) × (Hamt × Mirror A B)). x.1.0.arena) (sym run)
        ∙ ap (λ (x : Held). x.1.0) (remove_leaf_blocks-Keeps c ma.dev mb.dev t lba hash (h, m)),
    subst (λ x. Stable x.1.1) run (removed_all lba hash h m s).0,
  )

  pub remove_leaf_blocks-records :
      (lba : ℕ) (hash : List ℕ) (h : Hamt) (m : Mirror A B) (d : Option TractDoc) (fs : List ℕ)
      → IsStable ma mb blocks m
      → docs_on c blocks t lba hash ≡ ok d
      → furrows_of c ma.dev mb.dev t d ≡ ok fs
      → AllBelow t.len fs
      → ((remove_leaf_blocks c ma.dev mb.dev t lba hash (h, m)).0 ≡ ok tt)
        × ((remove_leaf_blocks c ma.dev mb.dev t lba hash (h, m)).1.0
            ≡ removing ((lba, hash) ∷ sealed_at c blocks t fs) h)
        × IsStable ma mb blocks (remove_leaf_blocks c ma.dev mb.dev t lba hash (h, m)).1.1
  remove_leaf_blocks-records lba hash h m d fs s named furrows_are below =
      let (after, records) = removed_all lba hash h m s in
      let (done, same) = records d fs named furrows_are below in
      (
        done,
        same
            ∙ ap (λ xs. record h { delta = record h.delta { removed = xs } })
                (append_assoc h.delta.removed ((lba, hash) ∷ []) (sealed_at c blocks t fs)),
        after,
      )
