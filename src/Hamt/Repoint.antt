-- ===== src/Hamt/Repoint.antt =====
-- src/hamt.rs, the index repair: a moved block's pointer is swapped on the path that the block itself
-- names, and a move whose pointer is not found is refused.
use manifestus.Base.{
  ℕ, zero, suc, ◌+◌, Bool, false, Option, none, some, List, [], ◌∷◌, ltb, ◌==◌, if◌then◌else◌,
}
use manifestus.Error.{Result, Run, ok, err, stuck, corrupt, ◌>>=◌, ◌>>◌, pure, throw, lift}
use manifestus.Block.{Block, BlockDev}
use manifestus.Mirror.State.{Mirror}
use manifestus.Ring.Codec.{Codec}
use manifestus.Ring.Document.{sealed_hp}
use manifestus.Tract
use manifestus.Tract.{Tract}
use manifestus.Hamt.Leaf.{Child, committed, dirty}
use manifestus.Hamt.Doc.{TractDoc, node, lone, extent, direct, furrow, decode_doc}
use manifestus.Hamt.State.{Hamt, on_store, update, look}
use manifestus.Hamt.Trie.{levels, edit_below, is_target, keep_slot, prune_doc}
use manifestus.Hamt.Store.{read_doc}

-- `u8::MAX`: a leaf hunt; any other depth is a node's.
abbrev pub leaf_hunt : Option ℕ
leaf_hunt = none

-- Deeper than a node of the target depth can be pointed at from.
abbrev pub overshoots : Option ℕ → ℕ → Bool
overshoots none depth = false
overshoots (some target) depth = ltb (target + 1) depth

-- A pointer: the hash and the position, as the source pairs them.
abbrev pub Pointer : Type 0
Pointer = List ℕ × ℕ

-- A move of a block, src/tract.rs.
pub record Reloc : Type 0 where
  pub hp : List ℕ
  pub from : ℕ
  pub to : ℕ

-- `self.repoint_hits += 1`
abbrev pub count_hit : Hamt → Hamt
count_hit h = record h { repoint_hits = h.repoint_hits + 1 }

abbrev pub refuse_miss : ℕ → ℕ → Result (Unit {0})
refuse_miss before after =
    if after == before then err (corrupt "relocation repointed nothing") else ok tt

module _ {M : Type 0} (read : ℕ → List ℕ → Run M (Option TractDoc)) where
  -- Descend along `key` to the child that is `old`, copying the path, and swap in `new`.
  unfoldable pub repoint :
      ℕ → Option Child → ℕ → List ℕ → Option ℕ → Pointer → Pointer → Run (Hamt × M) (Option Child)
  unfolding ◌>>=◌ ◌>>◌ edit_below prune_doc
  repoint zero slot depth key target old new = lift stuck
  repoint (suc left) none depth key target old new = pure none
  repoint (suc left) (some (dirty idx)) depth key target old new = do
    edit_below read keep_slot (λ sub. repoint left sub (depth + 1) key target old new) idx key depth
    pure (some (dirty idx))
  repoint (suc left) (some (committed hash lba)) depth key target old new =
      let go = λ (sub : Option Child). repoint left sub (depth + 1) key target old new in
      if is_target hash lba old
      then (do update count_hit; pure (some (committed new.0 new.1)))
      else if overshoots target depth
      then pure (some (committed hash lba))
      else (do doc ← on_store (read lba hash); prune_doc read go depth key hash lba doc)

  -- A repoint from the root that must hit.
  unfoldable pub repoint_root : List ℕ → Option ℕ → Pointer → Pointer → Run (Hamt × M) (Unit {0})
  unfolding ◌>>=◌ ◌>>◌ repoint
  repoint_root key target old new = do
    h ← look (λ h. ok h)
    slot ← repoint levels h.root 0 key target old new
    update (λ h. record h { root = slot })
    look (λ h'. refuse_miss h.repoint_hits h'.repoint_hits)

  unfoldable pub replace_leaf : List ℕ → Pointer → Pointer → Run (Hamt × M) (Unit {0})
  unfolding repoint_root
  replace_leaf key old new = repoint_root key leaf_hunt old new

  -- The repair by what the moved block says it is.
  unfoldable pub repair_doc : Reloc → TractDoc → Run (Hamt × M) (Unit {0})
  unfolding repoint_root
  repair_doc r (node n) = repoint_root n.route (some n.depth) (r.hp, r.from) (r.hp, r.to)
  repair_doc r (lone k v) = repoint_root k leaf_hunt (r.hp, r.from) (r.hp, r.to)
  repair_doc r (direct k s f) = repoint_root k leaf_hunt (r.hp, r.from) (r.hp, r.to)
  repair_doc r (extent k s x) = repoint_root k leaf_hunt (r.hp, r.from) (r.hp, r.to)
  repair_doc r (furrow k i p) = throw (corrupt "furrow move must be handled by the reap")

module _ (c : Codec) {A B : Type 0} (devA : BlockDev A) (devB : BlockDev B) (t : Tract) where
  -- The document of a block whose seal verifies.
  unfoldable pub moved_doc : Block → Result TractDoc
  unfolding decode_doc
  moved_doc block = elim (sealed_hp c block) [
    | none ↦ err (corrupt "relocated block unreadable at destination")
    | some h ↦ decode_doc c block
  ]

  -- Apply block moves to the index.
  unfoldable pub repair_relocs : List Reloc → Run (Hamt × Mirror A B) (Unit {0})
  unfolding ◌>>=◌ ◌>>◌ moved_doc repair_doc
  repair_relocs [] = pure tt
  repair_relocs (r ∷ rs) =
      let rest = repair_relocs rs in
      do
        buf ← on_store (Tract.read devA devB t r.to)
        doc ← lift (moved_doc buf)
        repair_doc (read_doc c devA devB t) r doc
        rest
