-- ===== src/Hamt/Insert.antt =====
-- src/hamt.rs, `insert_child`: after an insert that succeeds the key is found at the new leaf, and
-- every other key as before.
use manifestus.Base.{
  ℕ, zero, suc, ◌+◌, ◌≡◌, ◌≢◌, ◌∙◌, inl, refl, sym, ap, ap₂, subst, Bool, true, false, Option, none,
  some, List, [], ◌∷◌, ◌++◌, length, get_elem?, bytes_eq, eq_of_bytes_eq, ne_of_bytes_eq,
  if◌then◌else◌, arith,
}
use manifestus.Error.{Result, Run, ok, ◌>>=◌, ◌>>◌, >>=-eq-ok, >>-eq-ok, pure, lift}
use manifestus.Hamt.Walk.{node_at_depth}
use manifestus.Hamt.Leaf.{Child, committed, dirty, Node}
use manifestus.Hamt.Doc.{TractDoc, node, lone, extent, direct, furrow}
use manifestus.Hamt.State.{Hamt, push_node, push_removed, on_hamt, on_store, update}
use manifestus.Hamt.Trie.{split, edit_below, insert_leaf, insert_doc, insert_child}
use manifestus.Hamt.Keys.{IsKey}
use manifestus.Hamt.Seek.{IsSteady, onward, seek}
use manifestus.Hamt.Frame.{
  Agree, StandsAt, SlotPlaced, IsTrie, DocsRouted, IsRouted-committed, node_at_depth-ok,
}
use manifestus.Hamt.Below.{edit_below-ok}
use manifestus.Hamt.Entered.{beside-ok, seek_zeroed, entered-Edited, Below-Edited}
use manifestus.Hamt.Edit.{Edited, OnPath}
use manifestus.Hamt.Split.{
  LeafAt, seek-leaf, StandsAt-leaf, push-IsTrie, get-push, Evolves-weaken, Unchanged,
}
use manifestus.Hamt.Separated.{leaf_found-same, leaf_found-other, Separated}
use manifestus.Hamt.Diverged.{split-Separated}

-- What the insert may assume of `remove_leaf_blocks`: it leaves the arena alone, and the reads steady.
abbrev pub IsQuiet : {M : Type 0} → (ℕ → List ℕ → Run (Hamt × M) (Unit {0})) → (M → Type 0) → Type 0
IsQuiet {M} retire Inv =
    (lba : ℕ) (hash : List ℕ) (s t : Hamt × M)
    → retire lba hash s ≡ (ok tt, t)
    → Inv s.1
    → (t.0.arena ≡ s.0.arena) × Inv t.1

module _ {M : Type 0} (read : ℕ → List ℕ → Run M (Option TractDoc))
    (retire : ℕ → List ℕ → Run (Hamt × M) (Unit {0})) (Inv : M → Type 0)
    (docs : ℕ → List ℕ → Result (Option TractDoc)) (steady : IsSteady read Inv docs)
    (quiet : IsQuiet retire Inv) (routed : DocsRouted docs)
    (leaf_keys : (lba : ℕ) (hash k : List ℕ) → LeafAt docs k lba hash → IsKey k) (key : List ℕ)
    (ll : ℕ) (lh : List ℕ) (new_leaf : LeafAt docs key ll lh) where
  abbrev Done : List Node → List Node → ℕ → ℕ → Option Child → Child → Type 0
  Done a b left depth slot r = Edited docs a b left depth key slot (some r) (ok (some (ll, lh)))

  key_IsKey : IsKey key
  key_IsKey = leaf_keys ll lh key new_leaf

  -- A run that edits a slot of the level `depth`.
  abbrev Edits : (Option Child → Run (Hamt × M) Child) → ℕ → ℕ → Type 0
  Edits go left depth =
      (slot : Option Child) (s t : Hamt × M) (r : Child)
      → Inv s.1
      → IsTrie docs s.0.arena
      → SlotPlaced docs s.0.arena depth key slot
      → go slot s ≡ (ok r, t)
      → Done s.0.arena t.0.arena left depth slot r × Inv t.1

  -- The new leaf in a slot where no other key is found.
  replaced :
      (a : List Node) (left depth : ℕ) (slot : Option Child)
      → IsTrie docs a
      → ((l : List ℕ) → l ≢ key → onward (seek docs a l (suc left) depth) slot ≡ ok none)
      → Done a a (suc left) depth slot (committed lh ll)
  replaced a left depth slot trie gone = record {
    trie = trie;
    placed = StandsAt-leaf docs a depth key key ll lh new_leaf (λ i h. refl);
    evolves = λ i n e. (n, e, refl, refl, inl refl);
    found = seek-leaf docs a key key left depth ll lh new_leaf ∙ leaf_found-same key ll lh;
    others = λ l k ne g.
        seek-leaf docs a key l left depth ll lh new_leaf
        ∙ leaf_found-other key l ll lh (λ e. ne (sym e))
        ∙ sym (gone l ne);
  }

  moved :
      (a b b' : List Node) (left depth : ℕ) (slot : Option Child) (r r' : Child)
      → b ≡ b'
      → r ≡ r'
      → Done a b left depth slot r
      → Done a b' left depth slot r'
  moved a b b' left depth slot r r' p q d =
      subst (λ x. Done a x left depth slot r') p (subst (λ x. Done a b left depth slot x) q d)

  -- An edit below a node of the arena.
  edited_slot :
      (go : Option Child → Run (Hamt × M) Child) (left depth idx : ℕ) (s t : Hamt × M) (n : Node)
      → Edits go left (depth + 1)
      → Inv s.1
      → IsTrie docs s.0.arena
      → get_elem? s.0.arena idx ≡ some n
      → n.depth ≡ depth
      → Agree depth key n.route
      → edit_below read some go idx key depth s ≡ (ok tt, t)
      → Done s.0.arena t.0.arena (suc left) depth (some (dirty idx)) (dirty idx) × Inv t.1
  edited_slot go left depth idx s t n ih inv trie here d g e =
      let b = edit_below-ok read some go idx key depth s t e in
      let (done, inv') =
        Below-Edited docs routed key some go left depth idx s t n (ok (some (ll, lh))) b trie here d
          g (λ placed way. ih b.sub s (b.h, b.m) b.made inv trie placed b.ran) in
      (done, subst (λ (x : Hamt × M). Inv x.1) (sym b.ends) inv')

  -- A leaf of another key is split off; one of the same key is overwritten.
  overwritten :
      (a : List Node) (left depth lba : ℕ) (hash k : List ℕ)
      → LeafAt docs k lba hash
      → k ≡ key
      → IsTrie docs a
      → Done a a (suc left) depth (some (committed hash lba)) (committed lh ll)
  overwritten a left depth lba hash k old same trie =
      replaced a left depth (some (committed hash lba)) trie (λ l ne.
        seek-leaf docs a k l left depth lba hash old
        ∙ leaf_found-other k l lba hash (λ e. ne (sym e ∙ same)))

  split_off :
      (left depth lba : ℕ) (hash k : List ℕ) (h h' : Hamt) (r : Child)
      → LeafAt docs k lba hash
      → Separated docs h.arena h'.arena (suc left) depth k lba hash key ll lh r
      → Done h.arena h'.arena (suc left) depth (some (committed hash lba)) r
  split_off left depth lba hash k h h' r old sep = record {
    trie = sep.trie;
    placed = sep.placed;
    evolves =
        Evolves-weaken Unchanged (OnPath depth key) h.arena h'.arena (λ n e. absurd e) sep.grows;
    found = sep.found;
    others =
        λ l k' ne g. sep.others l ne g ∙ sym (seek-leaf docs h.arena k l left depth lba hash old);
  }

  leaf_case :
      (left depth lba : ℕ) (hash k : List ℕ) (s t : Hamt × M) (r : Child)
      → left + depth ≡ 52
      → Inv s.1
      → IsTrie docs s.0.arena
      → LeafAt docs k lba hash
      → Agree depth key k
      → insert_leaf read retire left depth key (committed lh ll) hash lba k s ≡ (ok r, t)
      → Done s.0.arena t.0.arena (suc left) depth (some (committed hash lba)) r × Inv t.1
  unfolding insert_leaf
  leaf_case left depth lba hash k (h, m) (h1, m1) r levels inv trie old g e =
      go (bytes_eq k key) refl e
    where
      go :
          (b : Bool)
          → bytes_eq k key ≡ b
          → (if b
                then retire lba hash >> pure (committed lh ll)
                else on_hamt (split left depth k (committed hash lba) key (committed lh ll)))
              (h, m)
            ≡ (ok r, (h1, m1))
          → Done h.arena h1.arena (suc left) depth (some (committed hash lba)) r × Inv m1
      go true q x =
          let (s', e1, f1) = >>-eq-ok (retire lba hash) (pure (committed lh ll)) (h, m) x in
          let (same, inv') = quiet lba hash (h, m) s' e1 inv in
          let ends : s' ≡ (h1, m1) = ap (λ (y : Result Child × (Hamt × M)). y.1) f1 in
          let made : committed lh ll ≡ r = cc f1 in
          (
            moved h.arena h.arena h1.arena (suc left) depth (some (committed hash lba))
                (committed lh ll) r (sym same ∙ ap (λ (y : Hamt × M). y.0.arena) ends) made
                (overwritten h.arena left depth lba hash k old (eq_of_bytes_eq k key q) trie),
            subst (λ (y : Hamt × M). Inv y.1) ends inv',
          )
      go false q x =
          let (r', h', run, sep) =
            split-Separated docs routed k lba hash key ll lh old new_leaf (leaf_keys lba hash k old)
              key_IsKey (ne_of_bytes_eq k key q) left depth h levels (λ i small. sym (g i small))
              trie in
          let ran : (ok r', (h', m)) ≡ (ok r, (h1, m1)) =
            ap (λ (y : Result Child × Hamt). (y.0, (y.1, m))) (sym run) ∙ x in
          let made : r' ≡ r = cc ran in
          let grown : h'.arena ≡ h1.arena =
            ap (λ (y : Result Child × (Hamt × M)). y.1.0.arena) ran in
          let kept : m ≡ m1 = ap (λ (y : Result Child × (Hamt × M)). y.1.1) ran in
          (
            moved h.arena h'.arena h1.arena (suc left) depth (some (committed hash lba)) r' r grown
                made (split_off left depth lba hash k h h' r' old sep),
            subst Inv kept inv,
          )

  node_case :
      (go : Option Child → Run (Hamt × M) Child) (left depth lba : ℕ) (hash : List ℕ) (n : Node)
      → (s t : Hamt × M) (r : Child) → Edits go left (depth + 1)
      → Inv s.1
      → IsTrie docs s.0.arena
      → docs lba hash ≡ ok (some (node n))
      → (n.depth ≡ depth → Agree depth key n.route)
      → insert_doc read retire go left depth key (committed lh ll) hash lba (some (node n)) s
        ≡ (ok r, t)
      → Done s.0.arena t.0.arena (suc left) depth (some (committed hash lba)) r × Inv t.1
  unfolding insert_doc push_node
  node_case go left depth lba hash n (h, m) t r ih inv trie e route x =
      let a = h.arena in
      let grown : Hamt = record h { arena = a ++ n ∷ [] } in
      let last = λ (idx : ℕ). update (push_removed lba hash) >> pure (dirty idx) in
      let below = λ (idx : ℕ). edit_below read some go idx key depth >> last idx in
      let (s1, e1, f1) =
        >>-eq-ok (lift (node_at_depth n.depth depth)) (on_hamt (push_node n) >>= below) (h, m) x in
      let d : node_at_depth n.depth depth ≡ ok tt =
        ap (λ (y : Result (Unit {0}) × (Hamt × M)). y.0) e1 in
      let same : (h, m) ≡ s1 = ap (λ (y : Result (Unit {0}) × (Hamt × M)). y.1) e1 in
      let deep = node_at_depth-ok docs n.depth depth tt d in
      let (idx, s2, e2, f2) = >>=-eq-ok (on_hamt (push_node n)) below s1 f1 in
      let pushed : (ok (length a), (grown, m)) ≡ (ok idx, s2) =
        ap (on_hamt (push_node n)) same ∙ e2 in
      let p : length a ≡ idx = cc pushed in
      let q : (grown, m) ≡ s2 = ap (λ (y : Result ℕ × (Hamt × M)). y.1) pushed in
      let (s3, e3, f3) = >>-eq-ok (edit_below read some go idx key depth) (last idx) s2 f2 in
      let edit : edit_below read some go (length a) key depth (grown, m) ≡ (ok tt, s3) =
        ap₂ (λ (i : ℕ) (y : Hamt × M). edit_below read some go i key depth y) p q ∙ e3 in
      let (whole, inv') =
        edited_slot go left depth (length a) (grown, m) s3 n ih inv
          (push-IsTrie docs a n trie (IsRouted-committed docs a n (routed lba hash n e)))
          (get-push a n) deep (route deep) edit in
      let (arena, made, inv'') = rest s3 idx f3 inv' in
      (
        moved a s3.0.arena t.0.arena (suc left) depth (some (committed hash lba)) (dirty (length a))
            r arena (ap dirty p ∙ made)
            (entered-Edited docs routed key a s3.0.arena left depth lba hash n
              (some (dirty (length a))) (ok (some (ll, lh))) trie e d (route deep) whole),
        inv'',
      )
    where
      rest :
          (s3 : Hamt × M) (idx : ℕ)
          → (update (push_removed lba hash) >> pure (dirty idx)) s3 ≡ (ok r, t)
          → Inv s3.1
          → (s3.0.arena ≡ t.0.arena) × (dirty idx ≡ r) × Inv t.1
      rest (h3, m3) idx f inv3 =
          let (s4, e4, f4) =
            >>-eq-ok (update (push_removed lba hash)) (pure (dirty idx)) (h3, m3) f in
          (
            ap (λ (y : Result (Unit {0}) × (Hamt × M)). y.1.0.arena) e4
                ∙ ap (λ (y : Result Child × (Hamt × M)). y.1.0.arena) f4,
            cc f4,
            subst Inv
                (ap (λ (y : Result (Unit {0}) × (Hamt × M)). y.1.1) e4
                  ∙ ap (λ (y : Result Child × (Hamt × M)). y.1.1) f4)
                inv3,
          )

  doc_case :
      (go : Option Child → Run (Hamt × M) Child) (left depth lba : ℕ) (hash : List ℕ)
      → (s t : Hamt × M) (r : Child) → left + depth ≡ 52
      → Edits go left (depth + 1)
      → Inv s.1
      → IsTrie docs s.0.arena
      → StandsAt docs s.0.arena depth key (committed hash lba)
      → (doc : Option TractDoc) → docs lba hash ≡ ok doc
      → insert_doc read retire go left depth key (committed lh ll) hash lba doc s ≡ (ok r, t)
      → Done s.0.arena t.0.arena (suc left) depth (some (committed hash lba)) r × Inv t.1
  unfolding insert_doc
  doc_case go left depth lba hash s t r levels ih inv trie placed (some (node n)) e x =
      node_case go left depth lba hash n s t r ih inv trie e (placed (node n) e) x
  doc_case go left depth lba hash s t r levels ih inv trie placed (some (lone k v)) e x =
      leaf_case left depth lba hash k s t r levels inv trie
        (record { doc = lone k v; named = e; leaf = refl }) (placed (lone k v) e) x
  doc_case go left depth lba hash s t r levels ih inv trie placed (some (direct k z f)) e x =
      leaf_case left depth lba hash k s t r levels inv trie
        (record { doc = direct k z f; named = e; leaf = refl }) (placed (direct k z f) e) x
  doc_case go left depth lba hash s t r levels ih inv trie placed (some (extent k z f)) e x =
      leaf_case left depth lba hash k s t r levels inv trie
        (record { doc = extent k z f; named = e; leaf = refl }) (placed (extent k z f) e) x
  doc_case go left depth lba hash s t r levels ih inv trie placed (some (furrow k i p)) e x =
      absurd (cc x)
  doc_case go left depth lba hash s t r levels ih inv trie placed none e x =
      let ends : s ≡ t = ap (λ (y : Result Child × (Hamt × M)). y.1) x in
      let made : committed lh ll ≡ r = cc x in
      (
        moved s.0.arena s.0.arena t.0.arena (suc left) depth (some (committed hash lba))
            (committed lh ll) r (ap (λ (y : Hamt × M). y.0.arena) ends) made
            (replaced s.0.arena left depth (some (committed hash lba)) trie
              (λ l ne. seek_zeroed docs key s.0.arena l left depth lba hash e)),
        subst (λ (y : Hamt × M). Inv y.1) ends inv,
      )

  pure_slot :
      (left depth : ℕ) (slot : Option Child) (s s' t : Hamt × M) (x r : Child)
      → Done s.0.arena s'.0.arena left depth slot x × Inv s'.1
      → pure x s' ≡ (ok r, t)
      → Done s.0.arena t.0.arena left depth slot r × Inv t.1
  pure_slot left depth slot s s' t x r (done, inv) e =
      let ends : s' ≡ t = ap (λ (y : Result Child × (Hamt × M)). y.1) e in
      (
        moved s.0.arena s'.0.arena t.0.arena left depth slot x r
            (ap (λ (y : Hamt × M). y.0.arena) ends) (cc e) done,
        subst (λ (y : Hamt × M). Inv y.1) ends inv,
      )

  pub insert_child-Inserted :
      (left depth : ℕ)
      → left + depth ≡ 53
      → Edits (λ slot. insert_child read retire left slot depth key (committed lh ll)) left depth
  unfolding insert_child
  insert_child-Inserted zero depth levels slot s t r inv trie placed x = absurd (cc x)
  insert_child-Inserted (suc left) depth levels none s t r inv trie placed x =
      pure_slot (suc left) depth none s s t (committed lh ll) r
        (replaced s.0.arena left depth none trie (λ l ne. refl), inv) x
  insert_child-Inserted (suc left) depth levels (some (dirty idx)) s t r inv trie (n, e, d, g) x =
      let go = λ (sub : Option Child).
        insert_child read retire left sub (depth + 1) key (committed lh ll) in
      let (s', e1, f1) = >>-eq-ok (edit_below read some go idx key depth) (pure (dirty idx)) s x in
      pure_slot (suc left) depth (some (dirty idx)) s s' t (dirty idx) r
        (edited_slot go left depth idx s s' n (insert_child-Inserted left (depth + 1) (omega arith))
          inv trie e d g e1)
        f1
  insert_child-Inserted (suc left) depth levels (some (committed hash lba)) (h, m) t r inv trie
        placed x =
      let go = λ (sub : Option Child).
        insert_child read retire left sub (depth + 1) key (committed lh ll) in
      let below = λ (doc : Option TractDoc).
        insert_doc read retire go left depth key (committed lh ll) hash lba doc in
      let (doc, s1, e1, f1) = >>=-eq-ok (on_store (read lba hash)) below (h, m) x in
      let (q, p) = beside-ok h (read lba hash m) doc s1 e1 in
      let (told, inv') = steady lba hash m inv in
      doc_case go left depth lba hash (h, (read lba hash m).1) t r (omega arith)
        (insert_child-Inserted left (depth + 1) (omega arith)) inv' trie placed doc (sym told ∙ q)
        (subst (λ (y : Hamt × M). below doc y ≡ (ok r, t)) p f1)
