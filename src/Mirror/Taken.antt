-- ===== src/Mirror/Taken.antt =====
-- src/mirror.rs, `drain`: it takes the staging before it writes it.
use manifestus.Base.{
  ◌≡◌, refl, Bool, true, false, Option, none, some, List, [], ◌∷◌, if◌then◌else◌, is_some, ◌&&◌,
  leb, length,
}
use manifestus.Error.{Result, Run, ok, err, stuck}
use manifestus.Block.{BlockDev}
use manifestus.Mirror.Device.{Placed, write_each}
use manifestus.Mirror.State.{Mirror, Batch, staged, without_all}
use manifestus.Mirror.Ops.{
  sort_placed, dedup_placed, mirrored, in_parallel, after_primary, join_threads, settle_secondary,
  drop_secondary, par_batch_threshold, write_verified_batch_now, drain,
}

module _ {A B : Type 0} where
  settle-pending :
      (m : Mirror A B) (x : Result (Unit {0}) × B) → (settle_secondary m x).1.pending ≡ m.pending
  unfolding drop_secondary
  settle-pending m (ok u, b) = refl
  settle-pending m (err e, b) = refl
  settle-pending m (stuck, b) = refl

  after_primary-pending :
      (on_b : Run B (Unit {0})) (ob : Option B) (m : Mirror A B) (x : Result (Unit {0}) × A)
      → (after_primary on_b (record m { b = ob }) x).1.pending ≡ m.pending
  after_primary-pending on_b none m (ok u, a) = refl
  after_primary-pending on_b (some b) m (ok u, a) =
      settle-pending (record m { a = some a; b = some b }) (on_b b)
  after_primary-pending on_b ob m (err e, a) = refl
  after_primary-pending on_b ob m (stuck, a) = refl

  join_threads-pending :
      (m : Mirror A B) (x : Result (Unit {0}) × A) (y : Result (Unit {0}) × B)
      → (join_threads m x y).1.pending ≡ m.pending
  join_threads-pending m (ok u, a) y = settle-pending (record m { a = some a }) y
  join_threads-pending m (err e, a) (r, b) = refl
  join_threads-pending m (stuck, a) (r, b) = refl

  on_devices-pending :
      (on_a : Run A (Unit {0})) (on_b : Run B (Unit {0})) (oa : Option A) (ob : Option B)
      (m : Mirror A B)
      → ((mirrored on_a on_b (record m { a = oa; b = ob })).1.pending ≡ m.pending)
        × ((in_parallel on_a on_b (record m { a = oa; b = ob })).1.pending ≡ m.pending)
  unfolding mirrored in_parallel
  on_devices-pending on_a on_b (some a) none m =
      (after_primary-pending on_b none (record m { a = some a }) (on_a a), refl)
  on_devices-pending on_a on_b (some a) (some b) m = (
    after_primary-pending on_b (some b) (record m { a = some a }) (on_a a),
    join_threads-pending (record m { a = some a; b = some b }) (on_a a) (on_b b),
  )
  on_devices-pending on_a on_b none (some b) m = (refl, refl)
  on_devices-pending on_a on_b none none m = (refl, refl)

module _ {A B : Type 0} (devA : BlockDev A) (devB : BlockDev B) where
  -- A drain leaves nothing staged, whatever its result, and a second drain succeeds and changes
  -- nothing.
  pub drain-takes :
      (m : Mirror A B)
      → ((drain devA devB m).1.pending ≡ [])
        × (drain devA devB (drain devA devB m).1 ≡ (ok tt, (drain devA devB m).1))
  unfolding drain write_verified_batch_now
  drain-takes m = (taken m.pending, again (drain devA devB m).1 (taken m.pending))
    where
      taken : (q : List Batch) → (drain devA devB (record m { pending = q })).1.pending ≡ []
      taken [] = refl
      taken (x ∷ q) = written (is_some m.a && is_some m.b && leb par_batch_threshold (length ps))
        where
          ps : List Placed
          ps = dedup_placed (sort_placed (staged (x ∷ q)))

          m1 : Mirror A B
          m1 = record m { pending = []; cache = without_all ps m.cache }

          written :
              (b : Bool)
              → (if b
                  then in_parallel (write_each devA ps) (write_each devB ps) m1
                  else mirrored (write_each devA ps) (write_each devB ps) m1).1.pending
                ≡ []
          written true = (on_devices-pending (write_each devA ps) (write_each devB ps) m.a m.b m1).1
          written false =
              (on_devices-pending (write_each devA ps) (write_each devB ps) m.a m.b m1).0

      again : (m' : Mirror A B) → m'.pending ≡ [] → drain devA devB m' ≡ (ok tt, m')
      again m' e = empty_drain m'.pending e
        where
          empty_drain :
              (q : List Batch)
              → q ≡ []
              → drain devA devB (record m' { pending = q }) ≡ (ok tt, record m' { pending = q })
          empty_drain [] h = refl
          empty_drain (x ∷ q) h = absurd (cc h)
