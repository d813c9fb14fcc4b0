-- ===== src/Timing.antt =====
-- The random interval that src/dht.rs, the publisher and both mergers compute in the same way.
use distributed_topic_tracke.Prelude.{
  ℕ, ◌+◌, ◌-◌, ◌%◌, ◌^◌, ◌≤◌, ◌<◌, inl, inr, Bool-cases, arith, ltb, if◌then◌else◌,
}
use distributed_topic_tracke.Config.Duration.{Duration}

-- `Duration::from_nanos((random % max_jitter.as_nanos()) as u64)`, or zero without jitter.
unfoldable pub jitter : Duration → ℕ → Duration
jitter max_jitter random = if ltb 0 max_jitter then random % max_jitter % 2 ^ 64 else 0

unfoldable pub next_interval : Duration → Duration → ℕ → Duration
unfolding jitter
next_interval base_interval max_jitter random = base_interval + jitter max_jitter random

below : (n m : ℕ) → 0 < m → n % m ≤ m - 1
below n m h = grind arith

mod-le : (n m : ℕ) → n % m ≤ n
mod-le n m = grind arith

-- Whatever number is drawn, the interval lies between the base interval and the last nanosecond
-- before the base interval plus the jitter; without jitter it is the base interval itself.
pub next_interval_bounds :
    (base max_jitter random : ℕ)
    → (base ≤ next_interval base max_jitter random)
      × (next_interval base max_jitter random ≤ base + (max_jitter - 1))
unfolding next_interval
next_interval_bounds base max_jitter random = elim (Bool-cases (ltb 0 max_jitter)) [
  | inl some_jitter ↦ rw some_jitter (
    omega arith,
    omega (arith, mod-le (random % max_jitter) (2 ^ 64), below random max_jitter (ground arith)),
  )
  | inr no_jitter ↦ rw no_jitter (omega arith, omega arith)
]
