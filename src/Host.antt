-- ===== src/Host.antt =====
-- src/host.rs: the bounds that a file device checks before any I/O. `len` is the number of its blocks.
use manifestus.Base.{ℕ, ◌-◌, ◌||◌, ltb, leb, if◌then◌else◌}
use manifestus.Error.{Result, ok, err, bounds}

unfoldable pub block_bounds : ℕ → ℕ → Result (Unit {0})
block_bounds len lba = if leb len lba then err (bounds lba) else ok tt

-- Formed without a sum.
unfoldable pub bounds_run : ℕ → ℕ → ℕ → Result (Unit {0})
bounds_run len lba n = if leb len lba || ltb (len - lba) n then err (bounds lba) else ok tt
