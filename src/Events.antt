-- ===== src/Events.antt =====
-- src/events.rs: the survivable events. A sink is modelled by the list of what it was handed.
use manifestus.Base.{ℕ}

pub data StorageEvent : Type 0 where
  verify_retried : ℕ → StorageEvent
  block_relocated : ℕ → ℕ → StorageEvent
  mirror_degraded : StorageEvent
  reap_window_done : ℕ → ℕ → ℕ → StorageEvent
  live_lap_averted : ℕ → StorageEvent
