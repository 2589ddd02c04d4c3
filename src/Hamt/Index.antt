-- ===== src/Hamt/Index.antt =====
-- src/hamt.rs: the insert and the split, as the walk from the root sees them.
use manifestus.Base.{
  ℕ, zero, suc, ◌+◌, ◌<◌, ◌≡◌, ◌≢◌, ◌⊎◌, inl, inr, ◌∙◌, refl, sym, ap, ap₂, subst, Option, none,
  some, List, arith,
}
use manifestus.Error.{◌>>=◌, >>=-eq-ok, Result, Run, ok}
use manifestus.Hamt.Leaf.{Child, committed}
use manifestus.Hamt.Doc.{TractDoc}
use manifestus.Hamt.State.{look, update, Hamt}
use manifestus.Hamt.Trie.{levels, split, insert_child, find_leaf, prune, prune_child}
use manifestus.Hamt.Walk.{chunk}
use manifestus.Hamt.Keys.{IsKey, chunk-injective}
use manifestus.Hamt.Seek.{IsSteady, leaf_found, seek, leaf_of, find_leaf-leaf_of}
use manifestus.Hamt.Frame.{Agree, Agree-next, StandsAt, SlotPlaced, IsTrie, DocsRouted}
use manifestus.Hamt.Edit.{Edited, nat_cases}
use manifestus.Hamt.Split.{LeafAt}
use manifestus.Hamt.Diverged.{split-Separated}
use manifestus.Hamt.Unlinked.{prune_child-Unlinks}
use manifestus.Hamt.Insert.{IsQuiet, insert_child-Inserted}

-- The root that an edit of the whole index leaves.
abbrev pub rooted : Child → Hamt → Hamt
rooted r h = record h { root = some r }

-- Every key is at home at the root.
any_path : (key l : List ℕ) → Agree 0 l key
any_path key l i h = absurd (omega arith)

diverge_from :
    (k l : List ℕ) (left depth : ℕ)
    → IsKey k
    → IsKey l
    → k ≢ l
    → left + depth ≡ 52
    → Agree depth k l
    → (d : ℕ) × (d < 52) × (chunk k d ≢ chunk l d)
diverge_from k l zero depth a b ne levels g =
    absurd (ne (chunk-injective k l a b (λ d small. g d (omega arith))))
diverge_from k l (suc left) depth a b ne levels g =
    go (nat_cases (chunk k depth) (chunk l depth)) (diverge_from k l left (depth + 1) a b ne)
  where
    go :
        (chunk k depth ≡ chunk l depth) ⊎ (chunk k depth ≢ chunk l depth)
        → (left + (depth + 1) ≡ 52
            → Agree (depth + 1) k l
            → (d : ℕ) × (d < 52) × (chunk k d ≢ chunk l d))
        → (d : ℕ) × (d < 52) × (chunk k d ≢ chunk l d)
    go (inl e) ih = ih (omega arith) (Agree-next depth k l g e)
    go (inr n) ih = (depth, omega arith, n)

-- Two distinct keys of 32 bytes have different chunks at some depth below 52.
pub chunk-diverges :
    (k l : List ℕ) → IsKey k → IsKey l → k ≢ l → (d : ℕ) × (d < 52) × (chunk k d ≢ chunk l d)
chunk-diverges k l a b ne = diverge_from k l 52 0 a b ne refl (any_path l k)

module _ (docs : ℕ → List ℕ → Result (Option TractDoc)) (routed : DocsRouted docs) where
  -- Where the committed nodes are routed: for two distinct keys of 32 bytes that agree above `depth`,
  -- with the rest of the 52 levels left, the split of their leaves in a routed arena returns a slot,
  -- without a panic. Below the slot the second key is found at its leaf, and any other key that agrees
  -- with it above `depth` as the first leaf alone has it.
  pub split-seek :
      (ka : List ℕ) (la : ℕ) (ha kb : List ℕ) (lb : ℕ) (hb : List ℕ)
      → LeafAt docs ka la ha
      → LeafAt docs kb lb hb
      → IsKey ka
      → IsKey kb
      → ka ≢ kb
      → (left depth : ℕ) (h : Hamt) → left + depth ≡ 52
      → Agree depth ka kb
      → IsTrie docs h.arena
      → (l : List ℕ) → l ≢ kb
      → Agree depth l kb
      → (r : Child) × (h' : Hamt) × (split left depth ka (committed ha la) kb (committed hb lb) h
          ≡ (ok r, h'))
        × (seek docs h'.arena kb (suc left) depth r ≡ ok (some (lb, hb)))
        × (seek docs h'.arena l (suc left) depth r ≡ leaf_found ka l la ha)
  split-seek ka la ha kb lb hb leaf_a leaf_b key_a key_b ne left depth h levels g trie l other way =
      let (r, h', run, sep) =
        split-Separated docs routed ka la ha kb lb hb leaf_a leaf_b key_a key_b ne left depth h
          levels g trie in
      (r, h', run, sep.found, sep.others l other way)

module _ {M : Type 0} (read : ℕ → List ℕ → Run M (Option TractDoc))
    (retire : ℕ → List ℕ → Run (Hamt × M) (Unit {0})) (Inv : M → Type 0)
    (docs : ℕ → List ℕ → Result (Option TractDoc)) (steady : IsSteady read Inv docs)
    (quiet : IsQuiet retire Inv) (routed : DocsRouted docs)
    (leaf_keys : (lba : ℕ) (hash k : List ℕ) → LeafAt docs k lba hash → IsKey k) where
  -- Where reads are steady and committed nodes routed, in a routed arena: an insert at the root that
  -- succeeds leaves the arena routed and the new root placed; then `find_leaf` gives the new leaf for
  -- the key, and for any other key what it gave before.
  pub insert_child-find_leaf :
      (key : List ℕ) (lba : ℕ) (hash : List ℕ) (l : List ℕ) (h h' : Hamt) (m m' : M) (r : Child)
      → LeafAt docs key lba hash
      → IsKey l
      → l ≢ key
      → Inv m
      → IsTrie docs h.arena
      → SlotPlaced docs h.arena 0 key h.root
      → insert_child read retire levels h.root 0 key (committed hash lba) (h, m) ≡ (ok r, (h', m'))
      → IsTrie docs h'.arena
        × StandsAt docs h'.arena 0 key r
        × ((find_leaf read (rooted r h') key m').0 ≡ ok (some (lba, hash)))
        × ((find_leaf read (rooted r h') l m').0 ≡ (find_leaf read h l m).0)
  unfolding leaf_of
  insert_child-find_leaf key lba hash l h h' m m' r leaf k ne inv trie placed run =
      let (done, inv') =
        insert_child-Inserted read retire Inv docs steady quiet routed leaf_keys key lba hash leaf
          levels 0 refl h.root (h, m) (h', m') r inv trie placed run in
      (
        done.trie,
        done.placed,
        (find_leaf-leaf_of read Inv docs steady (rooted r h') key m' inv').0 ∙ done.found,
        (find_leaf-leaf_of read Inv docs steady (rooted r h') l m' inv').0
            ∙ done.others l k ne (any_path key l)
            ∙ sym (find_leaf-leaf_of read Inv docs steady h l m inv).0,
      )

module _ {M : Type 0} (read : ℕ → List ℕ → Run M (Option TractDoc)) (Inv : M → Type 0)
    (docs : ℕ → List ℕ → Result (Option TractDoc)) (steady : IsSteady read Inv docs)
    (routed : DocsRouted docs) where
  -- What is found where the slot of the root was unlinked.
  pruned :
      (key : List ℕ) (lba : ℕ) (hash : List ℕ) (l : List ℕ) (h h2 : Hamt) (m m2 : M)
      → (new : Option Child) → IsKey l
      → l ≢ key
      → Inv m
      → Edited docs h.arena h2.arena levels 0 key h.root new (ok none)
      → Inv m2
      → IsTrie docs h2.arena
        × SlotPlaced docs h2.arena 0 key new
        × ((find_leaf read (record h2 { root = new }) key m2).0 ≡ ok none)
        × ((find_leaf read (record h2 { root = new }) l m2).0 ≡ (find_leaf read h l m).0)
  unfolding leaf_of
  pruned key lba hash l h h2 m m2 new k ne inv done inv2 = (
    done.trie,
    done.placed,
    (find_leaf-leaf_of read Inv docs steady (record h2 { root = new }) key m2 inv2).0 ∙ done.found,
    (find_leaf-leaf_of read Inv docs steady (record h2 { root = new }) l m2 inv2).0
        ∙ done.others l k ne (any_path key l)
        ∙ sym (find_leaf-leaf_of read Inv docs steady h l m inv).0,
  )

  -- Where reads are steady and committed nodes routed, in a routed arena: when `find_leaf` gives a leaf
  -- for the key, and the unlink of that leaf's pointer on the key's path succeeds, then `find_leaf`
  -- gives none for the key, and for any other key what it gave before; the arena stays routed.
  pub prune-find_leaf :
      (key : List ℕ) (lba : ℕ) (hash : List ℕ) (l : List ℕ) (h h' : Hamt) (m m' : M)
      → LeafAt docs key lba hash
      → IsKey l
      → l ≢ key
      → Inv m
      → IsTrie docs h.arena
      → SlotPlaced docs h.arena 0 key h.root
      → (find_leaf read h key m).0 ≡ ok (some (lba, hash))
      → prune read key (hash, lba) (h, m) ≡ (ok tt, (h', m'))
      → IsTrie docs h'.arena
        × SlotPlaced docs h'.arena 0 key h'.root
        × ((find_leaf read h' key m').0 ≡ ok none)
        × ((find_leaf read h' l m').0 ≡ (find_leaf read h l m).0)
  unfolding leaf_of prune
  prune-find_leaf key lba hash l h h' m m' leaf k ne inv trie placed found run =
      let new_root = λ (new : Option Child). update (λ (h : Hamt). record h { root = new }) in
      let below =
        λ (slot : Option Child). prune_child read levels slot 0 key (hash, lba) >>= new_root in
      let (slot, s1, e1, f1) = >>=-eq-ok (look (λ h. ok h.root)) below (h, m) run in
      let root : h.root ≡ slot = cc e1 in
      let same : (h, m) ≡ s1 = ap (λ (y : Result (Option Child) × (Hamt × M)). y.1) e1 in
      let (new, (h2, m2), e2, f2) =
        >>=-eq-ok (prune_child read levels slot 0 key (hash, lba)) new_root s1 f1 in
      let ran : prune_child read levels h.root 0 key (hash, lba) (h, m) ≡ (ok new, (h2, m2)) =
        ap₂ (λ x y. prune_child read levels x 0 key (hash, lba) y) root same ∙ e2 in
      let leads = sym (find_leaf-leaf_of read Inv docs steady h key m inv).0 ∙ found in
      let (done, inv2) =
        prune_child-Unlinks read Inv docs steady routed key lba hash leaf levels 0 refl h.root
          (h, m) (h2, m2) new inv trie placed leads ran in
      let ends : (record h2 { root = new }, m2) ≡ (h', m') =
        ap (λ (y : Result (Unit {0}) × (Hamt × M)). y.1) f2 in
      subst
        (λ (y : Hamt × M).
          IsTrie docs y.0.arena
          × SlotPlaced docs y.0.arena 0 key y.0.root
          × ((find_leaf read y.0 key y.1).0 ≡ ok none)
          × ((find_leaf read y.0 l y.1).0 ≡ (find_leaf read h l m).0))
        ends (pruned key lba hash l h h2 m m2 new k ne inv done inv2)
