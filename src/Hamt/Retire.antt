-- ===== src/Hamt/Retire.antt =====
-- src/hamt.rs, `remove_leaf_blocks`: it touches nothing of the index but the list of removed blocks.
use manifestus.Base.{ℕ, refl, Option, none, some, List, [], ◌∷◌}
use manifestus.Error.{Run, ◌>>=◌, lift, Keeps, >>=-Keeps, >>-Keeps}
use manifestus.Block.{BlockDev}
use manifestus.Mirror.State.{Mirror}
use manifestus.Ring.Codec.{Codec}
use manifestus.Ring.Document.{sealed_hp}
use manifestus.Tract
use manifestus.Tract.{Tract}
use manifestus.Hamt.Leaf.{Child, Node}
use manifestus.Hamt.Doc.{TractDoc}
use manifestus.Hamt.State.{Hamt, push_removed, on_store, update}
use manifestus.Hamt.Store.{read_doc, push_sealed, remove_furrows, furrows_of, remove_leaf_blocks}

-- What an insert under way holds on to.
abbrev pub Held : Type 0
Held = Option Child × (List Node × (List (ℕ × List ℕ) × ℕ))

abbrev pub held : {M : Type 0} → Hamt × M → Held
held (h, m) = (h.root, (h.arena, (h.delta.added, h.repoint_hits)))

module _ {M : Type 0} where
  on_store-Keeps : {X : Type 0} (f : Run M X) → Keeps held (on_store f)
  on_store-Keeps f (h, m) = refl

  push_removed-Keeps :
      (lba : ℕ) (hash : List ℕ) → Keeps {S = Hamt × M} held (update (push_removed lba hash))
  push_removed-Keeps lba hash (h, m) = refl

module _ (c : Codec) {A B : Type 0} (devA : BlockDev A) (devB : BlockDev B) (t : Tract) where
  push_sealed-Keeps : (lba : ℕ) (o : Option (List ℕ)) → Keeps held (push_sealed c devA devB t lba o)
  push_sealed-Keeps lba none s = refl
  push_sealed-Keeps lba (some h) s = push_removed-Keeps lba h s

  remove_furrows-Keeps : (fs : List ℕ) → Keeps held (remove_furrows c devA devB t fs)
  unfolding remove_furrows
  remove_furrows-Keeps [] s = refl
  remove_furrows-Keeps (f ∷ fs) s =
      >>=-Keeps held (on_store (Tract.read devA devB t f)) _
        (on_store-Keeps (Tract.read devA devB t f))
        (λ buf.
          >>-Keeps held (push_sealed c devA devB t f (sealed_hp c buf))
            (remove_furrows c devA devB t fs) (push_sealed-Keeps f (sealed_hp c buf))
            (remove_furrows-Keeps fs))
        s

  abbrev of_doc : Option TractDoc → Run (Hamt × Mirror A B) Unit
  of_doc doc = lift (furrows_of c devA devB t doc) >>= remove_furrows c devA devB t

  of_doc-Keeps : (doc : Option TractDoc) → Keeps held (of_doc doc)
  of_doc-Keeps doc =
      >>=-Keeps held (lift (furrows_of c devA devB t doc)) (remove_furrows c devA devB t)
        (λ s. refl) remove_furrows-Keeps

  -- Retiring a leaf, whatever its result, leaves the root, the arena, the added blocks and the count
  -- of repoints.
  pub remove_leaf_blocks-Keeps :
      (lba : ℕ) (hash : List ℕ) → Keeps held (remove_leaf_blocks c devA devB t lba hash)
  unfolding remove_leaf_blocks
  remove_leaf_blocks-Keeps lba hash =
      >>-Keeps held (update (push_removed lba hash))
        (on_store (read_doc c devA devB t lba hash) >>= (λ doc. of_doc doc))
        (push_removed-Keeps lba hash)
        (>>=-Keeps held (on_store (read_doc c devA devB t lba hash)) of_doc
          (on_store-Keeps (read_doc c devA devB t lba hash)) of_doc-Keeps)
