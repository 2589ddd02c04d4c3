-- ===== src/Examples/Spine.antt =====
-- The theorems on the spine ring, at a ring of two slots on one disk.
use manifestus.Base.{
  ◌+◌, ◌≡◌, ◌≢◌, refl, true, false, none, some, [], bytes_eq, bytes_eq_refl, masked, slots, arith,
}
use manifestus.Error.{ok, is_ok, ◌>>◌, ◌>>=◌}
use manifestus.Block.{Block}
use manifestus.Mirror.State.{Mirror, staged, last_at, forget, without}
use manifestus.Mirror.Ops.{write_verified, drain, mirrored}
use manifestus.Mirror.Device.{write_one, write_attempts}
use manifestus.Mirror.Front.{front}
use manifestus.Mirror.Drain.{Holds}
use manifestus.Ring.Codec.{pos}
use manifestus.Ring.Document.{zero_hash}
use manifestus.Ring.Sealed.{sealed_block}
use manifestus.Ring.Entry.{SpineEntry, valid, encode, decode, classify}
use manifestus.Ring.Roundtrip.{IsSound}
use manifestus.Ring.Wire.{body, encode-IsSound, decode-encode, classify-encode}
use manifestus.Ring.State.{Ring, n, check_append, check_chain, land, append}
use manifestus.Ring.Append.{
  Chains, append-front, append-head, append-refuses, append-commits, slot_of,
}
use manifestus.Examples.Disk.{Disk, disk, medium, stored, blank}
use manifestus.Examples.Toy.{toy, toy-IsLawful}

abbrev pub genesis : SpineEntry
genesis = record {
  gen = 0;
  prev_hash = zero_hash;
  ring_log2 = 1;
  tract_blocks = 8;
  hamt_hash = zero_hash;
  hamt_lba = 0;
  plow = 2;
  reap = some 1;
  live = 0;
  eagle_time = pos 7;
}

pub genesis-IsSound : IsSound genesis
genesis-IsSound = record {
  prev_32 = refl;
  hamt_32 = refl;
  gen_word = omega arith;
  ring_pos = omega arith;
  ring_small = omega arith;
  tract_pos = omega arith;
  hamt_word = omega arith;
  live_word = omega arith;
  cursors = (omega arith, omega arith);
  no_overflow = omega arith;
}

decode-encode_example : (b : Block) × (encode toy genesis ≡ ok b) × (decode toy b ≡ ok genesis)
decode-encode_example = decode-encode toy toy-IsLawful genesis genesis-IsSound

at_zero : 0 ≡ masked 0 (slots 1)
unfolding masked
at_zero = refl

classify-encode_example :
    (b : Block) × (encode toy genesis ≡ ok b) × (classify toy b 0 (some 1) ≡ valid genesis)
classify-encode_example = classify-encode toy toy-IsLawful genesis 0 genesis-IsSound at_zero

abbrev one_disk : Mirror Disk Disk
one_disk = record {
  a = some blank;
  b = none;
  degraded = true;
  events = [];
  pending = [];
  cache = [];
  uses = 0;
}

abbrev fresh_ring : Ring Disk Disk
fresh_ring = record { mirror = one_disk; ring_log2 = 1; base = 4; head = none }

abbrev second : SpineEntry
second = record genesis { gen = 1 }

not_chained : ¬ (Chains toy none second × (second.ring_log2 ≡ fresh_ring.ring_log2))
not_chained h = omega (arith, h.0.0)

append-refuses_example :
    (is_ok (append toy disk disk second fresh_ring).0 ≡ false)
    × ((append toy disk disk second fresh_ring).1 ≡ fresh_ring)
append-refuses_example = append-refuses toy medium medium second fresh_ring not_chained

refused : is_ok (append toy disk disk second fresh_ring).0 ≡ false
refused = (append-refuses toy medium medium second fresh_ring not_chained).0

append-head_example : (append toy disk disk second fresh_ring).1.head ≡ none
append-head_example = append-head toy medium medium second fresh_ring refused

abbrev landed : Block → Ring Disk Disk
landed b = record {
  mirror = record one_disk { a = some (stored 4 b blank) };
  ring_log2 = 1;
  base = 4;
  head = some (0, genesis);
}

lands : (b : Block) → land toy disk disk genesis b fresh_ring ≡ (ok tt, landed b)
unfolding land n masked write_verified drain mirrored forget without write_one write_attempts ◌>>◌
    ◌>>=◌
lands b = rw (bytes_eq_refl b) refl

commits :
    append toy disk disk genesis fresh_ring
    ≡ (ok tt, landed (sealed_block toy (body toy toy-IsLawful genesis)))
unfolding append check_append check_chain bytes_eq ◌>>◌ ◌>>=◌
commits =
    rw (encode-IsSound toy toy-IsLawful genesis genesis-IsSound)
      (lands (sealed_block toy (body toy toy-IsLawful genesis)))

append-commits_example :
    Chains toy none genesis
    × ((landed (sealed_block toy (body toy toy-IsLawful genesis))).head
        ≡ some (slot_of toy medium medium genesis fresh_ring, genesis))
    × (b : Block) × Holds medium medium
        (4 + slot_of toy medium medium genesis fresh_ring)
        b
        (landed (sealed_block toy (body toy toy-IsLawful genesis))).mirror
    × (classify toy b (slot_of toy medium medium genesis fresh_ring) (some 1) ≡ valid genesis)
append-commits_example =
    append-commits toy medium medium toy-IsLawful genesis fresh_ring
      (landed (sealed_block toy (body toy toy-IsLawful genesis))) genesis-IsSound commits

other_slot : 5 ≢ fresh_ring.base + slot_of toy medium medium genesis fresh_ring
unfolding n masked
other_slot = omega arith

unstaged : last_at 5 (staged []) ≡ none
unfolding last_at staged
unstaged = refl

append-front_example :
    front medium medium 5 (append toy disk disk genesis fresh_ring).1.mirror ≡ some []
append-front_example = append-front toy medium medium genesis 5 fresh_ring other_slot unstaged
