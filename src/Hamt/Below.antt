-- ===== src/Hamt/Below.antt =====
-- src/hamt.rs: what an edit below a node of the arena ran through, and the arena that it leaves.
use manifestus.Base.{ℕ, ◌≡◌, ◌∙◌, refl, sym, ap, Option, none, some, List, get_elem?}
use manifestus.Error.{Result, Run, ok, stuck, >>=-eq-ok, lift}
use manifestus.Hamt.Walk.{chunk}
use manifestus.Hamt.Leaf.{Child, Node}
use manifestus.Hamt.Doc.{TractDoc}
use manifestus.Hamt.State.{Hamt, child_of, node_at, set_child, look}
use manifestus.Hamt.Trie.{edit_below}
use manifestus.Hamt.Seek.{arena_at}
use manifestus.Hamt.Edit.{edited, after}

-- What an edit below a node ran through.
pub record Below {M Y : Type 0} (slot : Y → Option Child) (go : Option Child → Run (Hamt × M) Y)
    (idx : ℕ) (key : List ℕ) (depth : ℕ) (s t : Hamt × M) : Type 0 where
  pub parent : Node
  pub sub : Option Child
  pub made : Y
  pub h : Hamt
  pub m : M
  pub here : get_elem? s.0.arena idx ≡ some parent
  pub child : child_of parent key depth ≡ ok sub
  pub ran : go sub s ≡ (ok made, (h, m))
  pub ends : t ≡ (set_child idx (chunk key depth) (slot made) h, m)

arena_at-is :
    (a : List Node) (idx : ℕ) (n : Node) → arena_at a idx ≡ ok n → get_elem? a idx ≡ some n
arena_at-is a idx n e = go (get_elem? a idx) refl e
  where
    go :
        (o : Option Node)
        → get_elem? a idx ≡ o
        → elim o as (λ y. Result Node) [ none ↦ stuck | some m ↦ ok m ] ≡ ok n
        → get_elem? a idx ≡ some n
    go none q k = absurd (cc k)
    go (some m) q k = let p : m ≡ n = cc k in q ∙ ap (λ y. some y) p

module _ {M : Type 0} (read : ℕ → List ℕ → Run M (Option TractDoc)) where
  pub edit_below-ok :
      {Y : Type 0} (slot : Y → Option Child) (go : Option Child → Run (Hamt × M) Y) (idx : ℕ)
      → (key : List ℕ) (depth : ℕ) (s t : Hamt × M)
      → edit_below read slot go idx key depth s ≡ (ok tt, t)
      → Below slot go idx key depth s t
  unfolding edit_below node_at
  edit_below-ok slot go idx key depth (h, m) t e =
      let (n, s1, e1, f1) = >>=-eq-ok (look (λ h. node_at h idx)) _ (h, m) e in
      let (sub, s2, e2, f2) = >>=-eq-ok (lift (child_of n key depth)) _ s1 f1 in
      let (new, (h3, m3), e3, f3) = >>=-eq-ok (go sub) _ s2 f2 in
      let p1 : (h, m) ≡ s1 = ap (λ (x : Result Node × (Hamt × M)). x.1) e1 in
      let p2 : s1 ≡ s2 = ap (λ (x : Result (Option Child) × (Hamt × M)). x.1) e2 in
      record {
        parent = n;
        sub = sub;
        made = new;
        h = h3;
        m = m3;
        here = arena_at-is h.arena idx n (ap (λ (x : Result Node × (Hamt × M)). x.0) e1);
        child = ap (λ (x : Result (Option Child) × (Hamt × M)). x.0) e2;
        ran = ap (go sub) (p1 ∙ p2) ∙ e3;
        ends = sym (ap (λ (x : Result (Unit {0}) × (Hamt × M)). x.1) f3);
      }

pub set_child-after :
    (h : Hamt) (key : List ℕ) (depth idx : ℕ) (n : Node) (r : Option Child)
    → get_elem? h.arena idx ≡ some n
    → (set_child idx (chunk key depth) r h).arena ≡ after key depth idx n r h.arena
unfolding set_child after edited
set_child-after h key depth idx n r e = rw (e, set_child) refl
