-- ===== src/Vault/State.antt =====
-- src/vault.rs, `struct Vault` without its index, and the steps that need none: the heartbeat
-- generation and the migration of the spine.
use manifestus.Base.{ℕ, ◌+◌, ◌-◌, ◌*◌, ◌/◌, ◌%◌, Option, none, some, List, slots}
use manifestus.Error.{Result, Run, ok, err, corrupt, ◌>>=◌, ◌>>◌, lift}
use manifestus.Block.{BlockDev}
use manifestus.Ring.Codec.{Codec, ℤ}
use manifestus.Ring.Entry.{SpineEntry, fence_k, body_hash}
use manifestus.Ring.State.{Ring, on_mirror, append, recent_fences, zero_ring_at, set_base}
use manifestus.Ring.Root.{RootEntry, root_slots, root_body_hash, append_root}
use manifestus.Tract.{Tract}
use manifestus.Vault.Live.{LiveSet, live_count}
use manifestus.Vault.Fence.{fence_from}

pub record Vault (A B : Type 0) : Type 0 where
  pub ring : Ring A B
  pub tract : Tract
  pub live : LiveSet
  pub root : Option RootEntry
  pub pending_reap : Option ℕ

module _ {A B : Type 0} where
  abbrev pub put_ring : {X : Type 0} → Vault A B → Result X × Ring A B → Result X × Vault A B
  put_ring v (x, r) = (x, record v { ring = r })

  -- A method of the vault's ring.
  abbrev pub on_ring : {X : Type 0} → Run (Ring A B) X → Run (Vault A B) X
  on_ring f v = put_ring v (f v.ring)

  abbrev pub set_fence : Option ℕ → Run (Vault A B) (Unit {0})
  set_fence fence v = (ok tt, record v { tract = record (v.tract) { fence_limit = fence } })

-- The residence after the ring's, in the band.
unfoldable pub next_residence : RootEntry → ℕ → ℕ
next_residence root cur =
    let n = slots root.ring_log2 in root_slots + ((cur - root_slots) / n + 1) % root.residences * n

module _ (c : Codec) {A B : Type 0} (devA : BlockDev A) (devB : BlockDev B) where
  -- The head's root, geometry and cursors under a new generation number.
  unfoldable pub heartbeat_entry : Vault A B → SpineEntry → List ℕ → ℤ → SpineEntry
  heartbeat_entry v head hash now = record {
    gen = head.gen + 1;
    prev_hash = hash;
    ring_log2 = v.ring.ring_log2;
    tract_blocks = head.tract_blocks;
    hamt_hash = head.hamt_hash;
    hamt_lba = head.hamt_lba;
    plow = head.plow;
    reap = head.reap;
    live = live_count v.live;
    eagle_time = now;
  }

  -- The recent budgets become the tract's fence.
  unfoldable pub refence : Run (Vault A B) (Unit {0})
  refence = do fences ← on_ring (recent_fences c devA devB fence_k); set_fence (fence_from fences)

  unfoldable pub append_heartbeat : ℤ → Run (Vault A B) (Unit {0})
  unfolding heartbeat_entry refence
  append_heartbeat now v = elim v.ring.head [
    | none ↦ (err (corrupt "heartbeat on pre-genesis vault"), v)
    | some h ↦
        (do
          hash ← lift (body_hash c h.1)
          on_ring (append c devA devB (heartbeat_entry v h.1 hash now))
          refence)
          v
  ]

  abbrev pub head_gen : Vault A B → ℕ
  head_gen v = elim v.ring.head [ none ↦ 0 | some h ↦ h.1.gen ]

  unfoldable pub moved_root : Vault A B → RootEntry → List ℕ → ℤ → RootEntry
  unfolding next_residence
  moved_root v root hash now = record {
    gen = root.gen + 1;
    prev_hash = hash;
    ring_log2 = root.ring_log2;
    at = next_residence root v.ring.base;
    was = v.ring.base;
    since = head_gen v + 1;
    residences = root.residences;
    residency = root.residency;
    eagle_time = now;
  }

  abbrev pub adopt_root : RootEntry → Run (Vault A B) (Unit {0})
  adopt_root root v = (ok tt, record v { ring = set_base root.at v.ring; root = some root })

  unfoldable pub migrate_ring : ℤ → Run (Vault A B) (Unit {0})
  unfolding moved_root next_residence
  migrate_ring now v = elim v.root [
    | none ↦ (ok tt, v)
    | some root ↦
        (do
          on_ring
              (on_mirror (zero_ring_at devA devB root.ring_log2 (next_residence root v.ring.base)))
          hash ← lift (root_body_hash c root)
          on_ring (on_mirror (append_root c devA devB (moved_root v root hash now)))
          adopt_root (moved_root v root hash now))
          v
  ]
