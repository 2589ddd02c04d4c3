-- ===== src/Hamt/Trie.antt =====
-- src/hamt.rs: the walks and the copy-on-write edits of the trie, over any way `read` to read the
-- document that a pointer names, and any way `retire` to record a leaf's blocks as dead. A level's
-- fuel is what is left of 53 levels: the key has 52, and a walk past them is a panic.
use manifestus.Base.{
  ℕ, zero, suc, ◌+◌, Bool, ◌&&◌, Option, none, some, List, [], bytes_eq, ◌==◌, if◌then◌else◌,
}
use manifestus.Error.{Run, ok, stuck, corrupt, ◌>>=◌, ◌>>◌, pure, throw, lift}
use manifestus.Hamt.Walk.{chunk, node_at_depth}
use manifestus.Hamt.Leaf.{Child, committed, dirty}
use manifestus.Hamt.Doc.{TractDoc, node, lone, extent, direct, furrow}
use manifestus.Hamt.State.{
  Hamt, new_node, push_removed, set_nth, child_of, node_at, set_child, push_node, on_store, on_hamt,
  update, look,
}

-- `chunk` is in range of the key for every depth below this.
abbrev pub levels : ℕ
levels = 53

-- Create the internal chain separating two keys from `depth` down; no level left is a panic.
unfoldable pub split : ℕ → ℕ → List ℕ → Child → List ℕ → Child → Run Hamt Child
unfolding ◌>>=◌ push_node set_nth
split zero depth ka a kb b = lift stuck
split (suc left) depth ka a kb b =
    let ca = chunk ka depth in
    let cb = chunk kb depth in
    let fresh = new_node depth ka in
    let deeper = split left (depth + 1) ka a kb b in
    if ca == cb
    then (do
      sub ← deeper
      idx ← push_node (record fresh { children = set_nth ca (some sub) fresh.children })
      pure (dirty idx))
    else (do
      idx ←
          push_node
            (record fresh { children = set_nth cb (some b) (set_nth ca (some a) fresh.children) })
      pure (dirty idx))

-- The key of a leaf's document.
abbrev pub leaf_key : TractDoc → List ℕ
leaf_key (node n) = []
leaf_key (furrow k i p) = k
leaf_key (lone k v) = k
leaf_key (direct k s f) = k
leaf_key (extent k s r) = k

abbrev pub is_target : List ℕ → ℕ → List ℕ × ℕ → Bool
is_target hash lba old = bytes_eq hash old.0 && lba == old.1

abbrev pub keep_slot : {Y : Type 0} → Y → Y
keep_slot y = y

module _ {M : Type 0} (read : ℕ → List ℕ → Run M (Option TractDoc)) where
  module _ {X : Type 0} where
    -- The child that the walk goes on to, if there is one.
    abbrev pub go_on : (Child → Run M (Option X)) → Option Child → Run M (Option X)
    go_on go none = pure none
    go_on go (some x) = go x

    -- What the walk makes of a document at `depth`; a leaf is the caller's.
    unfoldable pub on_doc :
        (ℕ → List ℕ → TractDoc → Run M (Option X))
        → (Child → Run M (Option X))
        → List ℕ
        → ℕ
        → ℕ
        → List ℕ
        → Option TractDoc
        → Run M (Option X)
    unfolding ◌>>=◌ ◌>>◌ child_of node_at_depth
    on_doc at_leaf go key depth lba hash none = pure none
    on_doc at_leaf go key depth lba hash (some (node n)) = do
      lift (node_at_depth n.depth depth)
      sub ← lift (child_of n key depth)
      go_on go sub
    on_doc at_leaf go key depth lba hash (some (furrow k i p)) =
        throw (corrupt "furrow in index position")
    on_doc at_leaf go key depth lba hash (some (lone k v)) = at_leaf lba hash (lone k v)
    on_doc at_leaf go key depth lba hash (some (direct k s f)) = at_leaf lba hash (direct k s f)
    on_doc at_leaf go key depth lba hash (some (extent k s r)) = at_leaf lba hash (extent k s r)

    -- The loop of `lookup` and of `find_leaf`.
    unfoldable pub descend :
        (ℕ → List ℕ → TractDoc → Run M (Option X))
        → Hamt
        → List ℕ
        → ℕ
        → ℕ
        → Child
        → Run M (Option X)
    unfolding ◌>>=◌ child_of node_at on_doc
    descend at_leaf h key zero depth current = lift stuck
    descend at_leaf h key (suc left) depth (dirty idx) = do
      n ← lift (node_at h idx)
      sub ← lift (child_of n key depth)
      go_on (descend at_leaf h key left (depth + 1)) sub
    descend at_leaf h key (suc left) depth (committed hash lba) = do
      doc ← read lba hash
      on_doc at_leaf (descend at_leaf h key left (depth + 1)) key depth lba hash doc

    unfoldable pub descend_root :
        (ℕ → List ℕ → TractDoc → Run M (Option X)) → Hamt → List ℕ → Run M (Option X)
    unfolding descend
    descend_root at_leaf h key = go_on (descend at_leaf h key levels 0) h.root

  abbrev pub leaf_here : List ℕ → ℕ → List ℕ → TractDoc → Run M (Option (ℕ × List ℕ))
  leaf_here key lba hash doc =
      if bytes_eq (leaf_key doc) key then pure (some (lba, hash)) else pure none

  unfoldable pub find_leaf : Hamt → List ℕ → Run M (Option (ℕ × List ℕ))
  unfolding descend_root
  find_leaf h key = descend_root (leaf_here key) h key

  -- The child below a node of the arena is replaced by what `go` makes of it.
  unfoldable pub edit_below :
      {Y : Type 0}
      → (Y → Option Child)
      → (Option Child → Run (Hamt × M) Y)
      → ℕ
      → List ℕ
      → ℕ
      → Run (Hamt × M) (Unit {0})
  unfolding ◌>>=◌ child_of node_at set_child
  edit_below slot go idx key depth = do
    n ← look (λ h. node_at h idx)
    sub ← lift (child_of n key depth)
    new ← go sub
    update (set_child idx (chunk key depth) (slot new))

  module _ (retire : ℕ → List ℕ → Run (Hamt × M) (Unit {0})) where
    -- A leaf in the way of another: the same key is overwritten, another one is split off.
    unfoldable pub insert_leaf : ℕ → ℕ → List ℕ → Child → List ℕ → ℕ → List ℕ → Run (Hamt × M) Child
    unfolding ◌>>◌ split
    insert_leaf left depth key leaf hash lba k =
        if bytes_eq k key
        then (do retire lba hash; pure leaf)
        else on_hamt (split left depth k (committed hash lba) key leaf)

    unfoldable pub insert_doc :
        (Option Child → Run (Hamt × M) Child)
        → ℕ
        → ℕ
        → List ℕ
        → Child
        → List ℕ
        → ℕ
        → Option TractDoc
        → Run (Hamt × M) Child
    unfolding ◌>>=◌ ◌>>◌ node_at_depth push_node edit_below insert_leaf
    insert_doc go left depth key leaf hash lba none = pure leaf
    insert_doc go left depth key leaf hash lba (some (node n)) = do
      lift (node_at_depth n.depth depth)
      idx ← on_hamt (push_node n)
      edit_below some go idx key depth
      update (push_removed lba hash)
      pure (dirty idx)
    insert_doc go left depth key leaf hash lba (some (furrow k i p)) =
        throw (corrupt "furrow in index position")
    insert_doc go left depth key leaf hash lba (some (lone k v)) =
        insert_leaf left depth key leaf hash lba k
    insert_doc go left depth key leaf hash lba (some (direct k s f)) =
        insert_leaf left depth key leaf hash lba k
    insert_doc go left depth key leaf hash lba (some (extent k s r)) =
        insert_leaf left depth key leaf hash lba k

    -- COW insert: the replacement for the slot.
    unfoldable pub insert_child : ℕ → Option Child → ℕ → List ℕ → Child → Run (Hamt × M) Child
    unfolding ◌>>=◌ ◌>>◌ edit_below insert_doc
    insert_child zero slot depth key leaf = lift stuck
    insert_child (suc left) none depth key leaf = pure leaf
    insert_child (suc left) (some (dirty idx)) depth key leaf = do
      edit_below some (λ sub. insert_child left sub (depth + 1) key leaf) idx key depth
      pure (dirty idx)
    insert_child (suc left) (some (committed hash lba)) depth key leaf = do
      doc ← on_store (read lba hash)
      insert_doc (λ sub. insert_child left sub (depth + 1) key leaf) left depth key leaf hash lba
          doc

  -- A document on the way of the unlink: a node is copied, anything else stays.
  unfoldable pub prune_doc :
      (Option Child → Run (Hamt × M) (Option Child))
      → ℕ
      → List ℕ
      → List ℕ
      → ℕ
      → Option TractDoc
      → Run (Hamt × M) (Option Child)
  unfolding ◌>>=◌ ◌>>◌ node_at_depth push_node edit_below
  prune_doc go depth route hash lba (some (node n)) = do
    lift (node_at_depth n.depth depth)
    idx ← on_hamt (push_node n)
    update (push_removed lba hash)
    edit_below keep_slot go idx route depth
    pure (some (dirty idx))
  prune_doc go depth route hash lba _ = pure (some (committed hash lba))

  -- COW unlink of the child that points at exactly `old`.
  unfoldable pub prune_child :
      ℕ → Option Child → ℕ → List ℕ → List ℕ × ℕ → Run (Hamt × M) (Option Child)
  unfolding ◌>>=◌ ◌>>◌ edit_below prune_doc
  prune_child zero slot depth route old = lift stuck
  prune_child (suc left) none depth route old = pure none
  prune_child (suc left) (some (dirty idx)) depth route old = do
    edit_below keep_slot (λ sub. prune_child left sub (depth + 1) route old) idx route depth
    pure (some (dirty idx))
  prune_child (suc left) (some (committed hash lba)) depth route old =
      let go = λ (sub : Option Child). prune_child left sub (depth + 1) route old in
      if is_target hash lba old
      then pure none
      else (do doc ← on_store (read lba hash); prune_doc go depth route hash lba doc)

  unfoldable pub prune : List ℕ → List ℕ × ℕ → Run (Hamt × M) (Unit {0})
  unfolding ◌>>=◌ prune_child
  prune route old = do
    slot ← look (λ h. ok h.root)
    new ← prune_child levels slot 0 route old
    update (λ h. record h { root = new })
