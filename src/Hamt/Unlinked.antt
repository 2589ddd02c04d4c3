-- ===== src/Hamt/Unlinked.antt =====
-- src/hamt.rs, `prune_child`: after the unlink of a key's leaf the key is found nowhere, and every other
-- key as before.
use manifestus.Base.{
  ℕ, zero, suc, ◌+◌, ◌≡◌, ◌∙◌, inl, refl, sym, ap, ap₂, subst, Bool, true, false, ◌&&◌, Option,
  none, some, List, [], ◌∷◌, ◌++◌, length, get_elem?, bytes_eq, eq_of_bytes_eq, bytes_eq_refl,
  ne_of_bytes_eq, ◌==◌, ==_iff, if◌then◌else◌, arith,
}
use manifestus.Error.{Result, Run, ok, and_then, ◌>>=◌, ◌>>◌, >>=-eq-ok, >>-eq-ok, pure, lift}
use manifestus.Hamt.Walk.{node_at_depth}
use manifestus.Hamt.Leaf.{Child, committed, dirty, Node}
use manifestus.Hamt.Doc.{TractDoc, node, lone, extent, direct, furrow}
use manifestus.Hamt.State.{Hamt, push_node, push_removed, on_hamt, on_store, update}
use manifestus.Hamt.Trie.{edit_below, keep_slot, is_target, prune_doc, prune_child}
use manifestus.Hamt.Below.{edit_below-ok}
use manifestus.Hamt.Entered.{beside-ok, entered, entered-Edited, Below-Edited}
use manifestus.Hamt.Seek.{Sought, IsSteady, onward, leaf_found, seek, seek_doc}
use manifestus.Hamt.Frame.{
  Agree, StandsAt, SlotPlaced, IsTrie, DocsRouted, IsRouted-committed, node_at_depth-ok,
}
use manifestus.Hamt.Edit.{Edited}
use manifestus.Hamt.Split.{LeafAt, seek-leaf, push-IsTrie, get-push}
use manifestus.Hamt.Separated.{leaf_found-same, leaf_found-other}

module _ {M : Type 0} (read : ℕ → List ℕ → Run M (Option TractDoc)) (Inv : M → Type 0)
    (docs : ℕ → List ℕ → Result (Option TractDoc)) (steady : IsSteady read Inv docs)
    (routed : DocsRouted docs) (key : List ℕ) (ll : ℕ) (lh : List ℕ)
    (old_leaf : LeafAt docs key ll lh) where
  abbrev Gone : List Node → List Node → ℕ → ℕ → Option Child → Option Child → Type 0
  Gone a b left depth slot o = Edited docs a b left depth key slot o (ok none)

  -- The slot leads the key to the leaf that is to go.
  abbrev Leads : List Node → ℕ → ℕ → Option Child → Type 0
  Leads a left depth slot = onward (seek docs a key left depth) slot ≡ ok (some (ll, lh))

  abbrev Unlinks : (Option Child → Run (Hamt × M) (Option Child)) → ℕ → ℕ → Type 0
  Unlinks go left depth =
      (slot : Option Child) (s t : Hamt × M) (o : Option Child)
      → Inv s.1
      → IsTrie docs s.0.arena
      → SlotPlaced docs s.0.arena depth key slot
      → Leads s.0.arena left depth slot
      → go slot s ≡ (ok o, t)
      → Gone s.0.arena t.0.arena left depth slot o × Inv t.1

  Gone-moved :
      (left depth : ℕ) (slot : Option Child) (s s' t : Hamt × M) (x o : Option Child)
      → Gone s.0.arena s'.0.arena left depth slot x × Inv s'.1
      → pure x s' ≡ (ok o, t)
      → Gone s.0.arena t.0.arena left depth slot o × Inv t.1
  Gone-moved left depth slot s s' t x o done e =
      let ends : s' ≡ t = ap (λ (y : Result (Option Child) × (Hamt × M)). y.1) e in
      let same : x ≡ o = cc e in
      subst (λ (y : Hamt × M). Gone s.0.arena y.0.arena left depth slot o × Inv y.1) ends
        (subst (λ z. Gone s.0.arena s'.0.arena left depth slot z × Inv s'.1) same done)

  -- The pointer itself is dropped.
  dropped :
      (a : List Node) (left depth : ℕ)
      → IsTrie docs a
      → Gone a a (suc left) depth (some (committed lh ll)) none
  dropped a left depth trie = record {
    trie = trie;
    placed = tt;
    evolves = λ i n e. (n, e, refl, refl, inl refl);
    found = refl;
    others = λ l k ne g. sym (
        seek-leaf docs a key l left depth ll lh old_leaf
        ∙ leaf_found-other key l ll lh (λ e. ne (sym e)));
  }

  -- An unlink below a node of the arena.
  unlinked_below :
      (go : Option Child → Run (Hamt × M) (Option Child)) (left depth idx : ℕ) (s t : Hamt × M)
      → (n : Node) → Unlinks go left (depth + 1)
      → Inv s.1
      → IsTrie docs s.0.arena
      → get_elem? s.0.arena idx ≡ some n
      → n.depth ≡ depth
      → Agree depth key n.route
      → Leads s.0.arena (suc left) depth (some (dirty idx))
      → edit_below read keep_slot go idx key depth s ≡ (ok tt, t)
      → Gone s.0.arena t.0.arena (suc left) depth (some (dirty idx)) (some (dirty idx)) × Inv t.1
  unlinked_below go left depth idx s t n ih inv trie here d g leads e =
      let b = edit_below-ok read keep_slot go idx key depth s t e in
      let (done, inv') =
        Below-Edited docs routed key keep_slot go left depth idx s t n (ok none) b trie here d g
          (λ placed way. ih b.sub s (b.h, b.m) b.made inv trie placed (sym way ∙ leads) b.ran) in
      (done, subst (λ (x : Hamt × M). Inv x.1) (sym b.ends) inv')

  node_unlinked :
      (go : Option Child → Run (Hamt × M) (Option Child)) (left depth lba : ℕ) (hash : List ℕ)
      → (n : Node) (s t : Hamt × M) (o : Option Child) → Unlinks go left (depth + 1)
      → Inv s.1
      → IsTrie docs s.0.arena
      → docs lba hash ≡ ok (some (node n))
      → (n.depth ≡ depth → Agree depth key n.route)
      → Leads s.0.arena (suc left) depth (some (committed hash lba))
      → prune_doc read go depth key hash lba (some (node n)) s ≡ (ok o, t)
      → Gone s.0.arena t.0.arena (suc left) depth (some (committed hash lba)) o × Inv t.1
  unfolding prune_doc push_node
  node_unlinked go left depth lba hash n (h, m) t o ih inv trie e route leads x =
      let a = h.arena in
      let grown : Hamt = record h { arena = a ++ n ∷ [] } in
      let last =
        λ (idx : ℕ). edit_below read keep_slot go idx key depth >> pure (some (dirty idx)) in
      let below = λ (idx : ℕ). update (push_removed lba hash) >> last idx in
      let (s1, e1, f1) =
        >>-eq-ok (lift (node_at_depth n.depth depth)) (on_hamt (push_node n) >>= below) (h, m) x in
      let d : node_at_depth n.depth depth ≡ ok tt =
        ap (λ (y : Result (Unit {0}) × (Hamt × M)). y.0) e1 in
      let same : (h, m) ≡ s1 = ap (λ (y : Result (Unit {0}) × (Hamt × M)). y.1) e1 in
      let deep = node_at_depth-ok docs n.depth depth tt d in
      let (idx, s2, e2, f2) = >>=-eq-ok (on_hamt (push_node n)) below s1 f1 in
      let pushed : (ok (length a), (grown, m)) ≡ (ok idx, s2) =
        ap (on_hamt (push_node n)) same ∙ e2 in
      let p : length a ≡ idx = cc pushed in
      let q : (grown, m) ≡ s2 = ap (λ (y : Result ℕ × (Hamt × M)). y.1) pushed in
      let (s3, e3, f3) = >>-eq-ok (update (push_removed lba hash)) (last idx) s2 f2 in
      let dropped_old : (ok tt, (push_removed lba hash grown, m)) ≡ (ok tt, s3) =
        ap (λ y. update (push_removed lba hash) y) q ∙ e3 in
      let r : (push_removed lba hash grown, m) ≡ s3 =
        ap (λ (y : Result (Unit {0}) × (Hamt × M)). y.1) dropped_old in
      let (s4, e4, f4) =
        >>-eq-ok (edit_below read keep_slot go idx key depth) (pure (some (dirty idx))) s3 f3 in
      let edit : edit_below read keep_slot go (length a) key depth (push_removed lba hash grown, m)
          ≡ (ok tt, s4) =
        ap₂ (λ (i : ℕ) (y : Hamt × M). edit_below read keep_slot go i key depth y) p r ∙ e4 in
      let end : pure (some (dirty (length a))) s4 ≡ (ok o, t) =
        ap (λ (i : ℕ). pure (some (dirty i)) s4) p ∙ f4 in
      let enter = entered docs routed key a key left depth lba hash n trie e d (route deep) in
      let (whole, inv') =
        unlinked_below go left depth (length a) (push_removed lba hash grown, m) s4 n ih inv
          (push-IsTrie docs a n trie (IsRouted-committed docs a n (routed lba hash n e)))
          (get-push a n) deep (route deep) (enter ∙ leads) edit in
      Gone-moved (suc left) depth (some (committed hash lba)) (h, m) s4 t (some (dirty (length a)))
        o
        (
          entered-Edited docs routed key a s4.0.arena left depth lba hash n
              (some (dirty (length a))) (ok none) trie e d (route deep) whole,
          inv',
        )
        end

  -- A leaf that the key is found at, other than the pointer that goes, is none.
  found_here :
      (k : List ℕ) (lba : ℕ) (hash : List ℕ)
      → leaf_found k key lba hash ≡ ok (some (ll, lh))
      → is_target hash lba (lh, ll) ≡ true
  found_here k lba hash e = go (bytes_eq k key) refl
    where
      target : lba ≡ ll → hash ≡ lh → is_target hash lba (lh, ll) ≡ true
      target p q =
          let same : bytes_eq hash lh ≡ true = ap (bytes_eq hash) (sym q) ∙ bytes_eq_refl hash in
          rw (same, p) (here ll)
        where
          here : (i : ℕ) → (i == i) ≡ true
          here i = ground arith

      go : (b : Bool) → bytes_eq k key ≡ b → is_target hash lba (lh, ll) ≡ true
      go false q =
          let miss : ok none ≡ ok (some (ll, lh)) =
            sym (leaf_found-other k key lba hash (ne_of_bytes_eq k key q)) ∙ e in
          absurd (cc miss)
      go true q =
          let hit : ok (some (lba, hash)) ≡ ok (some (ll, lh)) =
            sym (leaf_found-same k lba hash)
            ∙ ap (λ y. leaf_found k y lba hash) (eq_of_bytes_eq k key q)
            ∙ e in
          let flat : (lba, hash) ≡ (ll, lh) = cc hit in
          target (ap (λ (y : ℕ × List ℕ). y.0) flat) (ap (λ (y : ℕ × List ℕ). y.1) flat)

  -- The slot that leads the key to its leaf, and is not the pointer to it, is a node.
  Leads-on :
      (a : List Node) (left depth lba : ℕ) (hash : List ℕ) (doc : Option TractDoc)
      → is_target hash lba (lh, ll) ≡ false
      → Leads a (suc left) depth (some (committed hash lba))
      → docs lba hash ≡ ok doc
      → (n : Node) × (doc ≡ some (node n))
  unfolding seek seek_doc
  Leads-on a left depth lba hash doc other leads e = go doc e
    where
      below : Child → Sought
      below = seek docs a key left (depth + 1)

      told :
          (d : Option TractDoc)
          → docs lba hash ≡ ok d
          → seek_doc below key depth lba hash d ≡ ok (some (ll, lh))
      told d q = sym (ap (λ t. and_then t (seek_doc below key depth lba hash)) q) ∙ leads

      leaf : (k : List ℕ) → leaf_found k key lba hash ≡ ok (some (ll, lh)) → ⊥
      leaf k q = cc (found_here k lba hash q, other)

      go : (d : Option TractDoc) → docs lba hash ≡ ok d → (n : Node) × (d ≡ some (node n))
      go none q = absurd (cc (told none q))
      go (some (furrow k i p)) q = absurd (cc (told (some (furrow k i p)) q))
      go (some (lone k v)) q = absurd (leaf k (told (some (lone k v)) q))
      go (some (direct k z f)) q = absurd (leaf k (told (some (direct k z f)) q))
      go (some (extent k z f)) q = absurd (leaf k (told (some (extent k z f)) q))
      go (some (node n)) q = (n, refl)

  target_is :
      (lba : ℕ) (hash : List ℕ) → is_target hash lba (lh, ll) ≡ true → (hash ≡ lh) × (lba ≡ ll)
  target_is lba hash e = go (bytes_eq hash lh) refl e
    where
      go : (b : Bool) → bytes_eq hash lh ≡ b → (b && lba == ll) ≡ true → (hash ≡ lh) × (lba ≡ ll)
      go true q x = (eq_of_bytes_eq hash lh q, (==_iff lba ll).0 x)
      go false q x = absurd (cc x)

  committed_unlinked :
      (go : Option Child → Run (Hamt × M) (Option Child)) (left depth lba : ℕ) (hash : List ℕ)
      → (s t : Hamt × M) (o : Option Child) → Unlinks go left (depth + 1)
      → Inv s.1
      → IsTrie docs s.0.arena
      → StandsAt docs s.0.arena depth key (committed hash lba)
      → Leads s.0.arena (suc left) depth (some (committed hash lba))
      → (b : Bool) → is_target hash lba (lh, ll) ≡ b
      → (if b
            then pure none
            else on_store (read lba hash) >>= (λ doc. prune_doc read go depth key hash lba doc))
          s
        ≡ (ok o, t)
      → Gone s.0.arena t.0.arena (suc left) depth (some (committed hash lba)) o × Inv t.1
  committed_unlinked go left depth lba hash s t o ih inv trie placed leads true q x =
      let (p, p') = target_is lba hash q in
      let slot : some (committed lh ll) ≡ some (committed hash lba) =
        ap₂ (λ h l. some (committed h l)) (sym p) (sym p') in
      Gone-moved (suc left) depth (some (committed hash lba)) s s t none o
        (
          subst (λ z. Gone s.0.arena s.0.arena (suc left) depth z none) slot
              (dropped s.0.arena left depth trie),
          inv,
        )
        x
  committed_unlinked go left depth lba hash (h, m) t o ih inv trie placed leads false q x =
      let (doc, s1, e1, f1) =
        >>=-eq-ok (on_store (read lba hash)) (λ doc. prune_doc read go depth key hash lba doc)
          (h, m) x in
      let (r, p) = beside-ok h (read lba hash m) doc s1 e1 in
      let (told, inv') = steady lba hash m inv in
      let is_doc : docs lba hash ≡ ok doc = sym told ∙ r in
      let (n, is_node) = Leads-on h.arena left depth lba hash doc q leads is_doc in
      let named : docs lba hash ≡ ok (some (node n)) = is_doc ∙ ap (λ y. ok y) is_node in
      node_unlinked go left depth lba hash n (h, (read lba hash m).1) t o ih inv' trie named
        (placed (node n) named) leads
        (ap₂ (λ y z. prune_doc read go depth key hash lba y z) (sym is_node) (sym p) ∙ f1)

  pub prune_child-Unlinks :
      (left depth : ℕ)
      → left + depth ≡ 53
      → Unlinks (λ slot. prune_child read left slot depth key (lh, ll)) left depth
  unfolding prune_child
  prune_child-Unlinks zero depth levels slot s t o inv trie placed leads x = absurd (cc x)
  prune_child-Unlinks (suc left) depth levels none s t o inv trie placed leads x = absurd (cc leads)
  prune_child-Unlinks (suc left) depth levels (some (dirty idx)) s t o inv trie (n, e, d, g) leads
        x =
      let go = λ (sub : Option Child). prune_child read left sub (depth + 1) key (lh, ll) in
      let (s', e1, f1) =
        >>-eq-ok (edit_below read keep_slot go idx key depth) (pure (some (dirty idx))) s x in
      Gone-moved (suc left) depth (some (dirty idx)) s s' t (some (dirty idx)) o
        (unlinked_below go left depth idx s s' n
          (prune_child-Unlinks left (depth + 1) (omega arith)) inv trie e d g leads e1)
        f1
  prune_child-Unlinks (suc left) depth levels (some (committed hash lba)) s t o inv trie placed
        leads x =
      committed_unlinked (λ sub. prune_child read left sub (depth + 1) key (lh, ll)) left depth lba
        hash s t o (prune_child-Unlinks left (depth + 1) (omega arith)) inv trie placed leads
        (is_target hash lba (lh, ll)) refl x
