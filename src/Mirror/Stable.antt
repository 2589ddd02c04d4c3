-- ===== src/Mirror/Stable.antt =====
-- src/mirror.rs, the reads of healthy devices: what a reader sees, staged, cached or stored, stays what
-- it was.
use manifestus.Base.{
  ℕ, ◌+◌, ◌≡◌, ◌∙◌, refl, sym, ap, subst, Bool, true, false, Option, none, some, List, [], ◌∷◌,
  length, ltb, leb, ◌==◌, ==_iff, if◌then◌else◌,
}
use manifestus.Error.{Result, ok, err, stuck, continue, ◌>>=◌}
use manifestus.Block.{Block}
use manifestus.Media.{Medium}
use manifestus.Mirror.State.{
  Mirror, CacheEntry, staged, last_at, cached_at, touch, insert_entry, evict, drop_used, least_used,
  cache_blocks,
}
use manifestus.Mirror.Ops.{first_healthy, put_a, put_b}
use manifestus.Mirror.Reads.{read, read_missed, read_cached}
use manifestus.Mirror.Front.{front, front_of}
use manifestus.Ring.Opened.{IsHealthy, read_view, some_value}

-- Every entry of the cache has the block of its position.
abbrev pub IsCoherent : (ℕ → Block) → List CacheEntry → Type 0
IsCoherent blocks [] = Unit {0}
IsCoherent blocks (e ∷ es) = (e.contents ≡ blocks e.lba) × IsCoherent blocks es

module _ (blocks : ℕ → Block) where
  cached_at-IsCoherent :
      (j : ℕ) (es : List CacheEntry) (b : Block)
      → IsCoherent blocks es
      → cached_at j es ≡ some b
      → b ≡ blocks j
  unfolding cached_at
  cached_at-IsCoherent j [] b c h = absurd (cc h)
  cached_at-IsCoherent j (e ∷ es) b (x, c) h =
      go (e.lba == j) refl h (cached_at-IsCoherent j es b c)
    where
      go :
          (t : Bool)
          → (e.lba == j) ≡ t
          → (if t then some e.contents else cached_at j es) ≡ some b
          → (cached_at j es ≡ some b → b ≡ blocks j)
          → b ≡ blocks j
      go true q k ih = sym (some_value k) ∙ x ∙ ap blocks ((==_iff e.lba j).0 q)
      go false q k ih = ih k

  touch-IsCoherent :
      (j uses : ℕ) (es : List CacheEntry)
      → IsCoherent blocks es
      → IsCoherent blocks (touch j uses es)
  unfolding touch
  touch-IsCoherent j uses [] c = c
  touch-IsCoherent j uses (e ∷ es) (x, c) = go (e.lba == j) (touch-IsCoherent j uses es c)
    where
      go :
          (t : Bool)
          → IsCoherent blocks (touch j uses es)
          → IsCoherent blocks (if t then record e { used = uses } ∷ es else e ∷ touch j uses es)
      go true ih = (x, c)
      go false ih = (x, ih)

  drop_used-IsCoherent :
      (u : ℕ) (es : List CacheEntry) → IsCoherent blocks es → IsCoherent blocks (drop_used u es)
  unfolding drop_used
  drop_used-IsCoherent u [] c = c
  drop_used-IsCoherent u (e ∷ es) (x, c) = go (e.used == u) (drop_used-IsCoherent u es c)
    where
      go :
          (t : Bool)
          → IsCoherent blocks (drop_used u es)
          → IsCoherent blocks (if t then es else e ∷ drop_used u es)
      go true ih = c
      go false ih = (x, ih)

  evict-IsCoherent : (es : List CacheEntry) → IsCoherent blocks es → IsCoherent blocks (evict es)
  unfolding evict
  evict-IsCoherent [] c = c
  evict-IsCoherent (e ∷ es) c =
      go (leb cache_blocks (length (e ∷ es)))
        (drop_used-IsCoherent (least_used e.used es) (e ∷ es) c)
    where
      go :
          (t : Bool)
          → IsCoherent blocks (drop_used (least_used e.used es) (e ∷ es))
          → IsCoherent blocks (if t then drop_used (least_used e.used es) (e ∷ es) else e ∷ es)
      go true ih = ih
      go false ih = c

  insert_entry-IsCoherent :
      (x : CacheEntry) (es : List CacheEntry)
      → x.contents ≡ blocks x.lba
      → IsCoherent blocks es
      → IsCoherent blocks (insert_entry x es)
  unfolding insert_entry
  insert_entry-IsCoherent x [] h c = (h, c)
  insert_entry-IsCoherent x (e ∷ es) h (y, c) =
      go (ltb x.lba e.lba) (insert_entry-IsCoherent x es h c)
    where
      go :
          (t : Bool)
          → IsCoherent blocks (insert_entry x es)
          → IsCoherent blocks (if t then x ∷ e ∷ es else e ∷ insert_entry x es)
      go true ih = (h, (y, c))
      go false ih = (y, ih)

module _ {A B : Type 0} (ma : Medium A) (mb : Medium B) (blocks : ℕ → Block) where
  -- A mirror whose readers see `blocks`: the last staging of a position, or else the front; and what
  -- is cached is that too.
  pub record IsStable (m : Mirror A B) : Type 0 where
    pub staging : (j : ℕ) (b : Block) → last_at j (staged m.pending) ≡ some b → b ≡ blocks j
    pub stored : (j : ℕ) → last_at j (staged m.pending) ≡ none → front ma mb j m ≡ some (blocks j)
    pub cached : IsCoherent blocks m.cache

  module _ (healthy_a : IsHealthy ma) (healthy_b : IsHealthy mb) where
    front-read :
        (lba : ℕ) (b : Block) (m : Mirror A B) (oa : Option A) (ob : Option B)
        → front_of ma mb lba oa ob ≡ some b
        → (m' : Mirror A B) × (first_healthy
              (ma.dev.read lba)
              (mb.dev.read lba)
              (record m { a = oa; b = ob })
            ≡ (ok b, m'))
          × (m'.pending ≡ m.pending)
          × (m'.cache ≡ m.cache)
          × ((j : ℕ) → front ma mb j m' ≡ front_of ma mb j oa ob)
    unfolding first_healthy
    front-read lba b m (some a) ob h =
        let (t, e) = healthy_a lba a in
        let m' : Mirror A B = record m { a = some t; b = ob } in
        (
          m',
          ap (put_a (record m { a = some a; b = ob })) e ∙ ap (λ x. (ok x, m')) (some_value h),
          refl,
          refl,
          λ j. ap (λ x. some x) (read_view ma lba a t e j),
        )
    front-read lba b m none (some d) h =
        let (t, e) = healthy_b lba d in
        let m' : Mirror A B = record m { a = none; b = some t } in
        (
          m',
          ap (put_b (record m { a = none; b = some d })) e ∙ ap (λ x. (ok x, m')) (some_value h),
          refl,
          refl,
          λ j. ap (λ x. some x) (read_view mb lba d t e j),
        )
    front-read lba b m none none h = absurd (cc h)

    abbrev pub Shows : Result Block × Mirror A B → Block → Type 0
    Shows x b = (x.0 ≡ ok b) × IsStable x.1

    -- A read answers what readers see, and keeps it.
    pub read-Shows :
        (lba : ℕ) (m : Mirror A B) → IsStable m → Shows (read ma.dev mb.dev lba m) (blocks lba)
    unfolding read
    read-Shows lba m s = go (last_at lba (staged m.pending)) refl
      where
        go :
            (o : Option Block)
            → last_at lba (staged m.pending) ≡ o
            → Shows
                (elim o as (λ _. Result Block × Mirror A B) [
                  | some b ↦ (ok b, m)
                  | none ↦ first_healthy (ma.dev.read lba) (mb.dev.read lba) m
                ])
                (blocks lba)
        go (some b) e = (ap (λ x. ok x) (s.staging lba b e), s)
        go none e =
            let (m', run, pend, cach, same) =
              front-read lba (blocks lba) m m.a m.b (s.stored lba e) in
            subst (λ x. Shows x (blocks lba)) (sym run)
              (
                refl,
                record {
                  staging = λ j b h. s.staging j b (ap (λ q. last_at j (staged q)) (sym pend) ∙ h);
                  stored =
                      λ j h. same j ∙ s.stored j (ap (λ q. last_at j (staged q)) (sym pend) ∙ h);
                  cached = subst (IsCoherent blocks) (sym cach) s.cached;
                },
              )

    read_missed-Shows :
        (lba : ℕ) (m : Mirror A B)
        → IsStable m
        → Shows (read_missed ma.dev mb.dev lba m) (blocks lba)
    unfolding read_missed ◌>>=◌
    read_missed-Shows lba m s = go (read ma.dev mb.dev lba m) (read-Shows lba m s)
      where
        keep : Block → Mirror A B → Result Block × Mirror A B
        keep b m = (
          ok b,
          record m {
            cache =
                insert_entry (record { lba = lba; used = m.uses; contents = b }) (evict m.cache);
          },
        )

        go :
            (x : Result Block × Mirror A B)
            → Shows x (blocks lba)
            → Shows (continue keep x) (blocks lba)
        go (ok b, n) (e, t) = (
          e,
          record {
            staging = t.staging;
            stored = t.stored;
            cached =
                insert_entry-IsCoherent blocks (record { lba = lba; used = n.uses; contents = b })
                  (evict n.cache) (cc e) (evict-IsCoherent blocks n.cache t.cached);
          },
        )
        go (err x, n) (e, t) = absurd (cc e)
        go (stuck, n) (e, t) = absurd (cc e)

    -- So does a read through the cache.
    pub read_cached-Shows :
        (lba : ℕ) (m : Mirror A B)
        → IsStable m
        → Shows (read_cached ma.dev mb.dev lba m) (blocks lba)
    unfolding read_cached
    read_cached-Shows lba m s =
        go (last_at lba (staged m.pending)) (cached_at lba m.cache) refl refl (
          read_missed-Shows lba (record m { uses = m.uses + 1 })
            (record { staging = s.staging; stored = s.stored; cached = s.cached }))
      where
        go :
            (o p : Option Block)
            → last_at lba (staged m.pending) ≡ o
            → cached_at lba m.cache ≡ p
            → Shows (read_missed ma.dev mb.dev lba (record m { uses = m.uses + 1 })) (blocks lba)
            → Shows
                (elim o as (λ _. Result Block × Mirror A B) [
                  | some b ↦ (ok b, m)
                  | none ↦ elim p as (λ _. Result Block × Mirror A B) [
                    | some b ↦ (
                      ok b,
                      record m { uses = m.uses + 1; cache = touch lba (m.uses + 1) m.cache },
                    )
                    | none ↦ read_missed ma.dev mb.dev lba (record m { uses = m.uses + 1 })
                  ]
                ])
                (blocks lba)
        go (some b) p e f miss = (ap (λ x. ok x) (s.staging lba b e), s)
        go none (some b) e f miss = (
          ap (λ x. ok x) (cached_at-IsCoherent blocks lba m.cache b s.cached f),
          record {
            staging = s.staging;
            stored = s.stored;
            cached = touch-IsCoherent blocks lba (m.uses + 1) m.cache s.cached;
          },
        )
        go none none e f miss = miss
