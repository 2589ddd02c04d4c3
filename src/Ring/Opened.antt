-- ===== src/Ring/Opened.antt =====
-- src/ring.rs, `Ring::open_at`: the head of a ring opened on devices that answer their reads.
use manifestus.Base.{
  ℕ, ◌+◌, ◌-◌, ◌≡◌, ◌∙◌, refl, sym, ap, Option, none, some, List, [], ◌∷◌, slots, arith,
}
use manifestus.Error.{ok, continue, ◌>>=◌, pure}
use manifestus.Block.{Block}
use manifestus.Media.{Medium}
use manifestus.Mirror.State.{Mirror, Batch, staged, last_at}
use manifestus.Mirror.Ops.{first_healthy, put_a, put_b}
use manifestus.Mirror.Reads.{read}
use manifestus.Mirror.Front.{front, front_of}
use manifestus.Ring.Codec.{Codec}
use manifestus.Ring.Entry.{Classified, classify}
use manifestus.Ring.Newest.{Rotated, IsNewest}
use manifestus.Ring.Bisect.{Reaches, search-Reaches}
use manifestus.Ring.State.{Ring, put_mirror, n, gen_at, head_search, adopt_head, open_at}

-- A device whose reads all succeed.
abbrev pub IsHealthy : {D : Type 0} → Medium D → Type 0
IsHealthy {D} m = (lba : ℕ) (d : D) → (t : D) × (m.dev.read lba d ≡ (ok (m.view d lba), t))

pub read_view :
    {D : Type 0} (m : Medium D) (lba : ℕ) (d t : D)
    → m.dev.read lba d ≡ (ok (m.view d lba), t)
    → (j : ℕ) → m.view t j ≡ m.view d j
read_view m lba d t e j = ap (λ x. m.view x.1 j) (sym e) ∙ m.read_keeps lba d j

pub some_value : {X : Type 0} {x y : X} → some x ≡ some y → x ≡ y
some_value h = cc h

module _ (c : Codec) {A B : Type 0} (ma : Medium A) (mb : Medium B) where
  -- The ring at `base`, with nothing staged, on a front that holds `blocks`.
  pub record IsRingOf (log2 base : ℕ) (blocks : ℕ → Block) (r : Ring A B) : Type 0 where
    pub same_log2 : r.ring_log2 ≡ log2
    pub same_base : r.base ≡ base
    pub unstaged : r.mirror.pending ≡ []
    pub holds : (j : ℕ) → front ma mb j r.mirror ≡ some (blocks j)

  module _ (healthy_a : IsHealthy ma) (healthy_b : IsHealthy mb) where
    -- A read answers the front's block and keeps the front and the staging.
    read-healthy :
        (lba : ℕ) (b : Block) (m : Mirror A B)
        → m.pending ≡ []
        → front ma mb lba m ≡ some b
        → (m' : Mirror A B) × (read ma.dev mb.dev lba m ≡ (ok b, m'))
          × (m'.pending ≡ [])
          × ((j : ℕ) → front ma mb j m' ≡ front ma mb j m)
    unfolding read staged last_at first_healthy
    read-healthy lba b m = go m.pending m.a m.b
      where
        go :
            (q : List Batch) (oa : Option A) (ob : Option B)
            → q ≡ []
            → front_of ma mb lba oa ob ≡ some b
            → (m' : Mirror A B) × (read ma.dev mb.dev lba (record m { a = oa; b = ob; pending = q })
                ≡ (ok b, m'))
              × (m'.pending ≡ [])
              × ((j : ℕ) → front ma mb j m' ≡ front_of ma mb j oa ob)
        go (x ∷ q) oa ob p h = absurd (cc p)
        go [] (some a) ob p h =
            let (t, e) = healthy_a lba a in
            let m' : Mirror A B = record m { a = some t; b = ob; pending = [] } in
            (
              m',
              ap (put_a (record m { a = some a; b = ob; pending = [] })) e
                  ∙ ap (λ x. (ok x, m')) (some_value h),
              refl,
              λ j. ap (λ x. some x) (read_view ma lba a t e j),
            )
        go [] none (some d) p h =
            let (t, e) = healthy_b lba d in
            let m' : Mirror A B = record m { a = none; b = some t; pending = [] } in
            (
              m',
              ap (put_b (record m { a = none; b = some d; pending = [] })) e
                  ∙ ap (λ x. (ok x, m')) (some_value h),
              refl,
              λ j. ap (λ x. some x) (read_view mb lba d t e j),
            )
        go [] none none p h = absurd (cc h)

    -- The readings of a ring on `blocks`.
    abbrev pub readings : ℕ → ℕ → (ℕ → Block) → ℕ → Classified
    readings log2 base blocks slot = classify c (blocks (base + slot)) slot (some log2)

    gen_at-healthy :
        (log2 base : ℕ) (blocks : ℕ → Block) (slot : ℕ)
        → Reaches
            (IsRingOf log2 base blocks)
            (gen_at c ma.dev mb.dev slot)
            (λ x. x ≡ readings log2 base blocks slot)
    unfolding gen_at ◌>>=◌
    gen_at-healthy log2 base blocks slot r i =
        let (m', e, p, keeps) =
          read-healthy (r.base + slot) (blocks (r.base + slot)) r.mirror i.unstaged
            (i.holds (r.base + slot)) in
        (
          classify c (blocks (r.base + slot)) slot (some r.ring_log2),
          record r { mirror = m' },
          ap (λ x. put_mirror r (continue (λ b. pure (classify c b slot (some r.ring_log2))) x)) e,
          (
            record {
              same_log2 = i.same_log2;
              same_base = i.same_base;
              unstaged = p;
              holds = λ j. keeps j ∙ i.holds j;
            },
            ap (λ (l : ℕ). classify c (blocks (r.base + slot)) slot (some l)) i.same_log2
                ∙ ap (λ (z : ℕ). classify c (blocks (z + slot)) slot (some log2)) i.same_base,
          ),
        )

    -- A ring with nothing staged opens on devices whose reads succeed, and its head is the newest
    -- entry that its slots hold, when they are those of a rotated ring, with any of them corrupt.
    pub open_at-IsNewest :
        (log2 base p : ℕ) (blocks : ℕ → Block) (m : Mirror A B)
        → m.pending ≡ []
        → ((j : ℕ) → front ma mb j m ≡ some (blocks j))
        → Rotated (readings log2 base blocks) p (slots log2 - 1)
        → (r : Ring A B) × (open_at c ma.dev mb.dev m log2 base ≡ ok r)
          × IsNewest (readings log2 base blocks) 0 (slots log2 - 1) r.head
          × IsRingOf log2 base blocks r
    unfolding open_at head_search n
    open_at-IsNewest log2 base p blocks m u h rot =
        let r0 : Ring A B = record { mirror = m; ring_log2 = log2; base = base; head = none } in
        let (found, r, e, (i, newest)) =
          search-Reaches (IsRingOf log2 base blocks) (gen_at c ma.dev mb.dev)
            (readings log2 base blocks) p (slots log2 - 1)
            (λ slot _. gen_at-healthy log2 base blocks slot) rot 0 (slots log2 - 1) (omega arith)
            (omega arith) r0
            (record { same_log2 = refl; same_base = refl; unstaged = u; holds = h }) in
        (
          record r { head = found },
          ap (adopt_head c ma.dev mb.dev) e,
          newest,
          record {
            same_log2 = i.same_log2;
            same_base = i.same_base;
            unstaged = i.unstaged;
            holds = i.holds;
          },
        )
