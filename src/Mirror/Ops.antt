-- ===== src/Mirror/Ops.antt =====
-- src/mirror.rs, the methods of `Mirror`: draining, verified writes, growth, reads.
use manifestus.Base.{
  ℕ, true, ◌&&◌, none, some, is_some, List, [], ◌∷◌, length, leb, ◌==◌, if◌then◌else◌,
}
use manifestus.Error.{Result, Run, ok, err, stuck, corrupt, is_ok, ◌>>◌}
use manifestus.Events.{mirror_degraded}
use manifestus.Block.{Block, BlockDev}
use manifestus.Mirror.Device.{Placed, write_one, write_each}
use manifestus.Mirror.State.{Mirror, staged, without_all, forget, emit}

-- The stable sort by position.
unfoldable pub insert_placed : Placed → List Placed → List Placed
insert_placed p [] = p ∷ []
insert_placed p (q ∷ qs) = if leb p.0 q.0 then p ∷ q ∷ qs else q ∷ insert_placed p qs

unfoldable pub sort_placed : List Placed → List Placed
unfolding insert_placed
sort_placed [] = []
sort_placed (p ∷ ps) = insert_placed p (sort_placed ps)

-- Of neighbours at one position the later stays.
abbrev pub keep_later : Placed → List Placed → List Placed
keep_later p [] = p ∷ []
keep_later p (q ∷ qs) = if p.0 == q.0 then q ∷ qs else p ∷ q ∷ qs

unfoldable pub dedup_placed : List Placed → List Placed
dedup_placed [] = []
dedup_placed (p ∷ ps) = keep_later p (dedup_placed ps)

abbrev pub par_batch_threshold : ℕ
par_batch_threshold = 4

module _ {A B : Type 0} where
  abbrev pub put_a : {X : Type 0} → Mirror A B → Result X × A → Result X × Mirror A B
  put_a m (r, a') = (r, record m { a = some a' })

  abbrev pub put_b : {X : Type 0} → Mirror A B → Result X × B → Result X × Mirror A B
  put_b m (r, b') = (r, record m { b = some b' })

  -- A secondary that failed is dropped for the session.
  unfoldable pub drop_secondary : Mirror A B → Mirror A B
  unfolding emit
  drop_secondary m = emit mirror_degraded (record m { b = none; degraded = true })

  abbrev pub settle_secondary : Mirror A B → Result (Unit {0}) × B → Result (Unit {0}) × Mirror A B
  settle_secondary m (r, b') =
      if is_ok r then (ok tt, record m { b = some b' }) else (ok tt, drop_secondary m)

  -- The failure matrix: the primary must succeed before the secondary is touched; a secondary that
  -- fails is dropped; without a primary the secondary stands alone.
  abbrev pub after_primary :
      Run B (Unit {0}) → Mirror A B → Result (Unit {0}) × A → Result (Unit {0}) × Mirror A B
  after_primary on_b m (ok _, a') = elim m.b [
    | none ↦ (ok tt, record m { a = some a' })
    | some b ↦ settle_secondary (record m { a = some a' }) (on_b b)
  ]
  after_primary on_b m (err e, a') = (err e, record m { a = some a' })
  after_primary on_b m (stuck, a') = (stuck, record m { a = some a' })

  unfoldable pub mirrored : Run A (Unit {0}) → Run B (Unit {0}) → Run (Mirror A B) (Unit {0})
  unfolding drop_secondary
  mirrored on_a on_b m = elim m.a [
    | some a ↦ after_primary on_b m (on_a a)
    | none ↦ elim m.b [
      | some b ↦ put_b m (on_b b)
      | none ↦ (err (corrupt "mirror has no devices"), m)
    ]
  ]

  -- Both rings written at once, on a thread each: the secondary is written also where the primary
  -- fails, and then left as it is.
  abbrev pub join_threads :
      Mirror A B → Result (Unit {0}) × A → Result (Unit {0}) × B → Result (Unit {0}) × Mirror A B
  join_threads m (ok _, a') rb = settle_secondary (record m { a = some a' }) rb
  join_threads m (err e, a') (r, b') = (err e, record m { a = some a'; b = some b' })
  join_threads m (stuck, a') (r, b') = (stuck, record m { a = some a'; b = some b' })

  unfoldable pub in_parallel : Run A (Unit {0}) → Run B (Unit {0}) → Run (Mirror A B) (Unit {0})
  unfolding drop_secondary
  in_parallel on_a on_b m = elim m.a [
    | some a ↦ elim m.b [ some b ↦ join_threads m (on_a a) (on_b b) | none ↦ (stuck, m) ]
    | none ↦ (stuck, m)
  ]

  -- The first healthy device answers.
  unfoldable pub first_healthy : {X : Type 0} → Run A X → Run B X → Run (Mirror A B) X
  first_healthy on_a on_b m = elim m.a [
    | some a ↦ put_a m (on_a a)
    | none ↦ elim m.b [
      | some b ↦ put_b m (on_b b)
      | none ↦ (err (corrupt "mirror has no devices"), m)
    ]
  ]

module _ {A B : Type 0} (devA : BlockDev A) (devB : BlockDev B) where
  unfoldable pub write_verified_batch_now : List Placed → Run (Mirror A B) (Unit {0})
  unfolding mirrored in_parallel
  write_verified_batch_now blocks m =
      let m1 = record m { cache = without_all blocks m.cache } in
      if is_some m.a && is_some m.b && leb par_batch_threshold (length blocks)
      then in_parallel (write_each devA blocks) (write_each devB blocks) m1
      else mirrored (write_each devA blocks) (write_each devB blocks) m1

  unfoldable pub drain : Run (Mirror A B) (Unit {0})
  unfolding write_verified_batch_now
  drain m = elim m.pending [
    | [] ↦ (ok tt, m)
    | x ∷ r ↦
        write_verified_batch_now (dedup_placed (sort_placed (staged (x ∷ r))))
          (record m { pending = [] })
  ]

  unfoldable pub write_verified : ℕ → Block → Run (Mirror A B) (Unit {0})
  unfolding drain
  write_verified lba buf = do
    drain
    λ m. mirrored (write_one devA lba buf) (write_one devB lba buf) (forget lba m)

  unfoldable pub write_verified_batch : List Placed → Run (Mirror A B) (Unit {0})
  unfolding drain
  write_verified_batch blocks = do drain; write_verified_batch_now blocks

  unfoldable pub grow : ℕ → Run (Mirror A B) (Unit {0})
  unfolding drain
  grow new_blocks = do drain; mirrored (devA.grow new_blocks) (devB.grow new_blocks)

  abbrev pub on_primary : Run A (Unit {0}) → Run (Mirror A B) (Unit {0})
  on_primary f m = elim m.a [ none ↦ (ok tt, m) | some a ↦ put_a m (f a) ]

  abbrev pub on_secondary : Run B (Unit {0}) → Run (Mirror A B) (Unit {0})
  on_secondary f m = elim m.b [ none ↦ (ok tt, m) | some b ↦ put_b m (f b) ]

  unfoldable pub flush : Run (Mirror A B) (Unit {0})
  unfolding drain
  flush = do drain; on_primary devA.flush; on_secondary devB.flush
