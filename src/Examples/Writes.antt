-- ===== src/Examples/Writes.antt =====
-- The theorems on the mirror, the open and the root ring, at disks in memory.
use manifestus.Base.{
  ◌<◌, ◌+◌, ◌*◌, ◌≢◌, ℕ, ◌-◌, ◌≡◌, inr, refl, subst, bytes_eq, true, false, none, some, [], ◌∷◌,
  replicate, ◌==◌, if◌then◌else◌, slots, arith,
}
use manifestus.Error.{ok, ◌>>◌, ◌>>=◌}
use manifestus.Block.{Block, zero_block}
use manifestus.Mirror.Device.{
  write_each, write_runs, verify_runs, runs_of, check_run, check_one, write_one, write_attempts,
}
use manifestus.Mirror.State.{Mirror, staged, last_at, without_all, without, forget}
use manifestus.Mirror.Ops.{
  drain, write_verified, write_verified_batch_now, mirrored, sort_placed, insert_placed,
  dedup_placed,
}
use manifestus.Mirror.Front.{front}
use manifestus.Mirror.Drain.{
  Holds, drain-front, drain-stores, write_verified-stores, write_verified-front,
}
use manifestus.Mirror.Taken.{drain-takes}
use manifestus.Ring.Codec.{pos}
use manifestus.Ring.Document.{zero_hash}
use manifestus.Ring.Entry.{Classified, classify, corrupted}
use manifestus.Ring.Newest.{Rotated, IsReadable, IsNewest}
use manifestus.Ring.State.{Ring, open_at}
use manifestus.Ring.Opened.{IsRingOf, readings, open_at-IsNewest}
use manifestus.Ring.Root.{RootEntry, root_slots, encode_root, decode_root}
use manifestus.Ring.Migrated.{IsSoundRoot, decode_root-encode_root}
use manifestus.Vault.State.{next_residence}
use manifestus.Vault.Moved.{next_residence-other}
use manifestus.Examples.Disk.{Disk, disk, medium, medium-IsHealthy, blank}
use manifestus.Ring.Sealed.{sealed_block}
use manifestus.Ring.Wire.{body}
use manifestus.Examples.Spine.{genesis}
use manifestus.Examples.Toy.{toy, toy-IsLawful}

-- Two disks, and position 3 staged twice.
abbrev staged_pair : Mirror Disk Disk
staged_pair = record {
  a = some blank;
  b = some blank;
  degraded = false;
  events = [];
  pending = record { room = 2; items = (3, 1 ∷ []) ∷ (3, 2 ∷ []) ∷ [] } ∷ [];
  cache = [];
  uses = 0;
}

last_staged : last_at 3 (staged staged_pair.pending) ≡ some (2 ∷ [])
unfolding last_at staged
last_staged = refl

not_staged : last_at 7 (staged staged_pair.pending) ≡ none
unfolding last_at staged
not_staged = refl

drain-front_example :
    front medium medium 7 (drain disk disk staged_pair).1 ≡ front medium medium 7 staged_pair
drain-front_example = drain-front medium medium 7 staged_pair not_staged

write_verified-front_example :
    front medium medium 7 (write_verified disk disk 5 (9 ∷ []) staged_pair).1
    ≡ front medium medium 7 staged_pair
write_verified-front_example =
    write_verified-front medium medium 5 (9 ∷ []) 7 staged_pair (omega arith) not_staged

drain-takes_example :
    ((drain disk disk staged_pair).1.pending ≡ [])
    × (drain disk disk (drain disk disk staged_pair).1 ≡ (ok tt, (drain disk disk staged_pair).1))
drain-takes_example = drain-takes disk disk staged_pair

drained : drain disk disk staged_pair ≡ (ok tt, (drain disk disk staged_pair).1)
unfolding drain write_verified_batch_now mirrored sort_placed insert_placed dedup_placed staged
    write_each write_runs verify_runs runs_of check_run check_one without_all without bytes_eq ◌>>◌
    ◌>>=◌
drained = refl

drain-stores_example : Holds medium medium 3 (2 ∷ []) (drain disk disk staged_pair).1
drain-stores_example =
    drain-stores medium medium 3 (2 ∷ []) staged_pair (drain disk disk staged_pair).1 last_staged
      drained

wrote :
    write_verified disk disk 5 (9 ∷ []) staged_pair
    ≡ (ok tt, (write_verified disk disk 5 (9 ∷ []) staged_pair).1)
unfolding drain write_verified_batch_now mirrored sort_placed insert_placed dedup_placed staged
    write_each write_runs verify_runs runs_of check_run check_one without_all without bytes_eq ◌>>◌
    ◌>>=◌ write_verified write_one write_attempts forget
wrote = refl

write_verified-stores_example :
    Holds medium medium 5 (9 ∷ []) (write_verified disk disk 5 (9 ∷ []) staged_pair).1
write_verified-stores_example =
    write_verified-stores medium medium 5 (9 ∷ []) staged_pair
      (write_verified disk disk 5 (9 ∷ []) staged_pair).1 wrote

abbrev root : RootEntry
root = record {
  gen = 0;
  prev_hash = zero_hash;
  ring_log2 = 4;
  at = 4;
  was = 4;
  since = 0;
  residences = 2;
  residency = 3;
  eagle_time = pos 7;
}

root-IsSoundRoot : IsSoundRoot root
root-IsSoundRoot = record {
  prev_32 = refl;
  ring_byte = omega arith;
  gen_word = omega arith;
  at_word = omega arith;
  was_word = omega arith;
  since_word = omega arith;
  band_word = omega arith;
  stay_word = omega arith;
}

decode_root-encode_root_example :
    (b : Block) × (encode_root toy root ≡ ok b) × (decode_root toy b ≡ ok root)
decode_root-encode_root_example = decode_root-encode_root toy toy-IsLawful root root-IsSoundRoot

-- A ring of two slots: the genesis entry at slot 0, trash at slot 1.
abbrev spine : ℕ → Block
spine j = if j == 4 then sealed_block toy (body toy toy-IsLawful genesis) else []

abbrev spine_disk : Mirror Disk Disk
spine_disk = record {
  a = none;
  b = some spine;
  degraded = true;
  events = [];
  pending = [];
  cache = [];
  uses = 0;
}

-- Slot 1 is trash, whatever the model of a block's hash is.
trash : readings toy medium medium medium-IsHealthy medium-IsHealthy 1 4 spine 1 ≡ corrupted
unfolding classify bytes_eq zero_block replicate
trash = refl

spine-Rotated :
    Rotated (readings toy medium medium medium-IsHealthy medium-IsHealthy 1 4 spine) 0 (slots 1 - 1)
spine-Rotated = record {
  rising = λ i j a b. absurd (omega arith);
  falls = λ i j a b c ri rj.
      let one : j ≡ 1 = omega arith in absurd (unread (subst (λ k. IsReadable (reading k)) one rj));
  late = inr (λ i j a b c. absurd (omega arith));
}
  where
    reading : ℕ → Classified
    reading = readings toy medium medium medium-IsHealthy medium-IsHealthy 1 4 spine

    unread : IsReadable (reading 1) → ⊥
    unread h = subst IsReadable trash h

open_at-IsNewest_example :
    (r : Ring Disk Disk) × (open_at toy disk disk spine_disk 1 4 ≡ ok r)
    × IsNewest (readings toy medium medium medium-IsHealthy medium-IsHealthy 1 4 spine) 0 1 r.head
    × IsRingOf toy medium medium 1 4 spine r
open_at-IsNewest_example =
    open_at-IsNewest toy medium medium medium-IsHealthy medium-IsHealthy 1 4 0 spine spine_disk refl
      (λ j. refl) spine-Rotated

-- The last residence of two: the spine moves back to the first.
next_residence-other_example :
    (j : ℕ) × (j < 2)
    × (j ≢ 1)
    × (next_residence root (root_slots + 1 * slots 4) ≡ root_slots + j * slots 4)
next_residence-other_example = next_residence-other root 1 (omega arith) (omega arith)
