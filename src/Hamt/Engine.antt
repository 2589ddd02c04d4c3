-- ===== src/Hamt/Engine.antt =====
-- src/hamt.rs on healthy devices: the insert of a leaf and the deletion of a key, by the engine's own
-- reads and its own retiring of leaves.
use manifestus.Base.{
  ℕ, ◌≡◌, ◌≢◌, ◌∙◌, refl, sym, ap, ap₂, subst, Bool, true, Option, none, some, List,
}
use manifestus.Error.{Result, Run, ok, ◌>>◌, >>=-eq-ok, >>-eq-ok, pure}
use manifestus.Block.{Block}
use manifestus.Media.{Medium}
use manifestus.Mirror.State.{Mirror}
use manifestus.Mirror.Stable.{IsStable}
use manifestus.Ring.Codec.{Codec}
use manifestus.Ring.Opened.{IsHealthy}
use manifestus.Tract.{Tract}
use manifestus.Hamt.Leaf.{Child, committed}
use manifestus.Hamt.Doc.{TractDoc}
use manifestus.Hamt.State.{Hamt, on_store}
use manifestus.Hamt.Trie.{levels, insert_child, find_leaf, prune}
use manifestus.Hamt.Store.{
  read_doc, remove_leaf_blocks, find, delete, delete_found, unlink_only, zero_leaf,
}
use manifestus.Hamt.Keys.{IsKey}
use manifestus.Hamt.Seek.{onward, seek, leaf_of, find_leaf-leaf_of}
use manifestus.Hamt.Frame.{SlotPlaced, StandsAt, IsTrie, DocsRouted}
use manifestus.Hamt.Split.{LeafAt}
use manifestus.Hamt.Retire.{Held, remove_leaf_blocks-Keeps}
use manifestus.Hamt.Index.{rooted, insert_child-find_leaf, prune-find_leaf}
use manifestus.Hamt.Steady.{docs_on, read_doc-IsSteady}
use manifestus.Hamt.Recorded.{remove_leaf_blocks-IsQuiet}
use manifestus.Hamt.Led.{leaf_of-LeafAt}

-- The keys of the leaves have 32 bytes.
abbrev pub LeafKeys : (ℕ → List ℕ → Result (Option TractDoc)) → Type 0
LeafKeys docs = (lba : ℕ) (hash k : List ℕ) → LeafAt docs k lba hash → IsKey k

module _ (c : Codec) {A B : Type 0} (ma : Medium A) (mb : Medium B) (blocks : ℕ → Block) (t : Tract)
    (healthy_a : IsHealthy ma) (healthy_b : IsHealthy mb) where
  -- On healthy devices whose readers see `blocks`: a pointer that `find` gives for a key names, on
  -- those blocks and under its own hash, a leaf of that key.
  pub find-LeafAt :
      (key : List ℕ) (h : Hamt) (m : Mirror A B) (lba : ℕ) (hash : List ℕ)
      → IsStable ma mb blocks m
      → (find c ma.dev mb.dev t key (h, m)).0 ≡ ok (some (lba, hash))
      → LeafAt (docs_on c blocks t) key lba hash
  unfolding find
  find-LeafAt key h m lba hash s e = leaf_of-LeafAt (docs_on c blocks t) key lba hash h (
      sym
        (find_leaf-leaf_of (read_doc c ma.dev mb.dev t) (λ m. IsStable ma mb blocks m)
          (docs_on c blocks t) (read_doc-IsSteady c ma mb blocks t healthy_a healthy_b) h key m s).0
      ∙ e)

module _ (c : Codec) {A B : Type 0} (ma : Medium A) (mb : Medium B) (blocks : ℕ → Block) (t : Tract)
    (healthy_a : IsHealthy ma) (healthy_b : IsHealthy mb)
    (routed : DocsRouted (docs_on c blocks t)) where
  abbrev Docs : ℕ → List ℕ → Result (Option TractDoc)
  Docs = docs_on c blocks t

  abbrev Stable : Mirror A B → Type 0
  Stable m = IsStable ma mb blocks m

  abbrev reads : ℕ → List ℕ → Run (Mirror A B) (Option TractDoc)
  reads = read_doc c ma.dev mb.dev t

  abbrev found : List ℕ → Hamt → Mirror A B → Result (Option (ℕ × List ℕ))
  found key h m = (find c ma.dev mb.dev t key (h, m)).0

  found_leaf :
      (key : List ℕ) (h : Hamt) (m : Mirror A B) → found key h m ≡ (find_leaf reads h key m).0
  unfolding find
  found_leaf key h m = refl

  -- On healthy devices whose readers see `blocks`, with the committed nodes on them routed and their
  -- leaves' keys of 32 bytes, in a routed arena: when the insert of a leaf of the key, which stands
  -- on the blocks, succeeds at the root, with the engine's reads and its own retiring of the old
  -- leaf, then `find` gives the new leaf for the key, and for any other key what it gave before; the
  -- arena stays routed and the new root placed.
  pub insert_child-find :
      (key : List ℕ) (lba : ℕ) (hash : List ℕ) (l : List ℕ) (h h' : Hamt) (m m' : Mirror A B)
      (r : Child)
      → LeafKeys (docs_on c blocks t)
      → LeafAt (docs_on c blocks t) key lba hash
      → IsKey l
      → l ≢ key
      → IsStable ma mb blocks m
      → IsTrie (docs_on c blocks t) h.arena
      → SlotPlaced (docs_on c blocks t) h.arena 0 key h.root
      → insert_child
          (read_doc c ma.dev mb.dev t)
          (remove_leaf_blocks c ma.dev mb.dev t)
          levels
          h.root
          0
          key
          (committed hash lba)
          (h, m)
        ≡ (ok r, (h', m'))
      → IsTrie (docs_on c blocks t) h'.arena
        × StandsAt (docs_on c blocks t) h'.arena 0 key r
        × ((find c ma.dev mb.dev t key (rooted r h', m')).0 ≡ ok (some (lba, hash)))
        × ((find c ma.dev mb.dev t l (rooted r h', m')).0 ≡ (find c ma.dev mb.dev t l (h, m)).0)
  unfolding find
  insert_child-find key lba hash l h h' m m' r leaf_keys leaf k ne stable trie placed run =
      insert_child-find_leaf reads (remove_leaf_blocks c ma.dev mb.dev t) Stable Docs
        (read_doc-IsSteady c ma mb blocks t healthy_a healthy_b)
        (remove_leaf_blocks-IsQuiet c ma mb blocks t healthy_a healthy_b) routed leaf_keys key lba
        hash l h h' m m' r leaf k ne stable trie placed run

  -- The steady reads: what `find_leaf` gives is what the index has.
  finds :
      (key : List ℕ) (h : Hamt) (m : Mirror A B)
      → Stable m
      → ((find_leaf reads h key m).0 ≡ leaf_of Docs h key) × Stable (find_leaf reads h key m).1
  finds key h m s =
      find_leaf-leaf_of reads Stable Docs (read_doc-IsSteady c ma mb blocks t healthy_a healthy_b) h
        key m s

  leaf_of-same :
      (h h2 : Hamt) (key : List ℕ)
      → h2.root ≡ h.root
      → h2.arena ≡ h.arena
      → leaf_of Docs h2 key ≡ leaf_of Docs h key
  unfolding leaf_of
  leaf_of-same h h2 key er ea = ap₂ (λ a x. onward (seek Docs a key levels 0) x) ea er

  -- The index after a delete: the key is gone, and another is found as before.
  abbrev Gone : List ℕ → List ℕ → Hamt → Mirror A B → Hamt → Mirror A B → Type 0
  Gone key l h m h' m' =
      IsTrie Docs h'.arena
      × SlotPlaced Docs h'.arena 0 key h'.root
      × ((find_leaf reads h' key m').0 ≡ ok none)
      × ((find_leaf reads h' l m').0 ≡ (find_leaf reads h l m).0)

  -- The unlink after the retiring, which kept the root and the arena.
  unlinked-Gone :
      (key l : List ℕ) (lba : ℕ) (hash : List ℕ) (h h2 h' : Hamt) (m m2 m' : Mirror A B)
      → IsKey l
      → l ≢ key
      → Stable m
      → Stable m2
      → IsTrie Docs h.arena
      → SlotPlaced Docs h.arena 0 key h.root
      → (find_leaf reads h key m).0 ≡ ok (some (lba, hash))
      → h2.root ≡ h.root
      → h2.arena ≡ h.arena
      → prune reads key (hash, lba) (h2, m2) ≡ (ok tt, (h', m'))
      → Gone key l h m h' m'
  unlinked-Gone key l lba hash h h2 h' m m2 m' k ne s s2 trie placed at er ea run =
      let led : leaf_of Docs h key ≡ ok (some (lba, hash)) = sym (finds key h m s).0 ∙ at in
      let leaf = leaf_of-LeafAt Docs key lba hash h led in
      let at2 = (finds key h2 m2 s2).0 ∙ leaf_of-same h h2 key er ea ∙ led in
      let placed2 : SlotPlaced Docs h2.arena 0 key h2.root =
        subst (λ a. SlotPlaced Docs a 0 key h2.root) (sym ea)
          (subst (λ x. SlotPlaced Docs h.arena 0 key x) (sym er) placed) in
      let (trie', placed', none_left, others) =
        prune-find_leaf reads Stable Docs (read_doc-IsSteady c ma mb blocks t healthy_a healthy_b)
          routed key lba hash l h2 h' m2 m' leaf k ne s2 (subst (λ a. IsTrie Docs a) (sym ea) trie)
          placed2 at2 run in
      (
        trie',
        placed',
        none_left,
        others ∙ (finds l h2 m2 s2).0 ∙ leaf_of-same h h2 l er ea ∙ sym (finds l h m s).0,
      )

  -- On healthy devices whose readers see `blocks`, with the committed nodes on them routed, in a
  -- routed arena: when `delete`, with a policy that only unlinks, finds the key and succeeds, then
  -- `find` gives none for the key, and for any other key what it gave before; the arena stays routed
  -- and the root placed.
  pub delete-find :
      (key l : List ℕ) (h h' : Hamt) (m m' : Mirror A B)
      → IsKey l
      → l ≢ key
      → IsStable ma mb blocks m
      → IsTrie (docs_on c blocks t) h.arena
      → SlotPlaced (docs_on c blocks t) h.arena 0 key h.root
      → delete c ma.dev mb.dev t key unlink_only (h, m) ≡ (ok true, (h', m'))
      → IsTrie (docs_on c blocks t) h'.arena
        × SlotPlaced (docs_on c blocks t) h'.arena 0 key h'.root
        × ((find c ma.dev mb.dev t key (h', m')).0 ≡ ok none)
        × ((find c ma.dev mb.dev t l (h', m')).0 ≡ (find c ma.dev mb.dev t l (h, m)).0)
  unfolding delete find zero_leaf
  delete-find key l h h' m m' k ne s trie placed run =
      let (o, s1, e1, f1) =
        >>=-eq-ok (find c ma.dev mb.dev t key) (delete_found c ma.dev mb.dev t key unlink_only)
          (h, m) run in
      go o s1 e1 f1
    where
      retire : ℕ → List ℕ → Run (Hamt × Mirror A B) (Unit {0})
      retire = remove_leaf_blocks c ma.dev mb.dev t

      zero_it : ℕ → List ℕ → Run (Hamt × Mirror A B) (Unit {0})
      zero_it lba hash = on_store (zero_leaf c ma.dev mb.dev t unlink_only lba hash)

      unlink : ℕ → List ℕ → Run (Hamt × Mirror A B) Bool
      unlink lba hash = prune reads key (hash, lba) >> pure true

      go :
          (o : Option (ℕ × List ℕ)) (s1 : Hamt × Mirror A B)
          → find c ma.dev mb.dev t key (h, m) ≡ (ok o, s1)
          → delete_found c ma.dev mb.dev t key unlink_only o s1 ≡ (ok true, (h', m'))
          → Gone key l h m h' m'
      go none s1 e f = absurd (cc f)
      go (some (lba, hash)) (h1, m1) e f =
          let (s2, e2, f2) =
            >>-eq-ok (retire lba hash) (zero_it lba hash >> unlink lba hash) (h1, m1) f in
          let (s3, e3, f3) = >>-eq-ok (zero_it lba hash) (unlink lba hash) s2 f2 in
          let (s4, e4, f4) = >>-eq-ok (prune reads key (hash, lba)) (pure true) s3 f3 in
          let at : (find_leaf reads h key m).0 ≡ ok (some (lba, hash)) = ap (λ y. y.0) e in
          let same : h ≡ h1 =
            ap (λ (y : Result (Option (ℕ × List ℕ)) × (Hamt × Mirror A B)). y.1.0) e in
          let stable1 : Stable m1 =
            subst (λ (y : Result (Option (ℕ × List ℕ)) × (Hamt × Mirror A B)). Stable y.1.1) e
              (finds key h m s).1 in
          let (arena, stable2) =
            remove_leaf_blocks-IsQuiet c ma mb blocks t healthy_a healthy_b lba hash (h1, m1) s2 e2
              stable1 in
          let root : s2.0.root ≡ h1.root =
            ap (λ (y : Result (Unit {0}) × (Hamt × Mirror A B)). y.1.0.root) (sym e2)
            ∙ ap (λ (x : Held). x.0)
                (remove_leaf_blocks-Keeps c ma.dev mb.dev t lba hash (h1, m1)) in
          let still : s2 ≡ s3 = ap (λ (y : Result (Unit {0}) × (Hamt × Mirror A B)). y.1) e3 in
          let ran : prune reads key (hash, lba) s2 ≡ (ok tt, (h', m')) =
            ap (prune reads key (hash, lba)) still
            ∙ e4
            ∙ ap (λ (y : Result Bool × (Hamt × Mirror A B)). (ok tt, y.1)) f4 in
          unlinked-Gone key l lba hash h s2.0 h' m s2.1 m' k ne s stable2 trie placed at
            (root ∙ ap (λ (x : Hamt). x.root) (sym same))
            (arena ∙ ap (λ (x : Hamt). x.arena) (sym same)) ran
