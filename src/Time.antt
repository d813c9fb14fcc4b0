-- ===== src/Time.antt =====
-- src/lib.rs: `unix_minute`, from the timestamp of the clock in seconds.
use distributed_topic_tracke.Prelude.{
  ℕ, ◌+◌, ◌-◌, ◌/◌, ◌^◌, ◌<◌, ◌≡◌, arith, ltb, if◌then◌else◌, Result, ok, panic, ℤ, pos, negsuc,
  leb_ℤ, i64_max,
}

-- `i64::MIN`
abbrev i64_min : ℤ
i64_min = negsuc (2 ^ 63 - 1)

unfoldable pub negated : ℕ → ℤ
negated n = if ltb 0 n then negsuc (n - 1) else pos 0

-- `timestamp / 60`, which rounds towards zero.
unfoldable pub whole_minutes : ℤ → ℤ
unfolding negated
whole_minutes (pos seconds) = pos (seconds / 60)
whole_minutes (negsuc seconds) = negated ((seconds + 1) / 60)

infixl 20 ◌+ℤ◌
unfoldable pub ◌+ℤ◌ : ℤ → ℤ → ℤ
pos a +ℤ pos b = pos (a + b)
pos a +ℤ negsuc b = if ltb b a then pos (a - (b + 1)) else negsuc (b - a)
negsuc a +ℤ pos b = if ltb a b then pos (b - (a + 1)) else negsuc (a - b)
negsuc a +ℤ negsuc b = negsuc (a + b + 1)

-- `i64::saturating_add`
unfoldable pub saturating_add : ℤ → ℤ → ℤ
unfolding ◌+ℤ◌
saturating_add a b =
    let sum = a +ℤ b in
    if leb_ℤ i64_max sum then i64_max else (if leb_ℤ sum i64_min then i64_min else sum)

-- `try_into().expect(..)` from `i64` to `u64`.
unfoldable pub expect_unsigned : ℤ → Result ℕ
expect_unsigned (pos n) = ok n
expect_unsigned (negsuc n) = panic

unfoldable pub unix_minute : ℤ → ℤ → Result ℕ
unfolding saturating_add whole_minutes expect_unsigned
unix_minute timestamp minute_offset =
    expect_unsigned (saturating_add (whole_minutes timestamp) minute_offset)

-- For a timestamp that is not negative, an offset of `k` minutes ahead gives the minute of the clock
-- plus `k`, as long as that is below 2^63.
pub unix_minute_ahead :
    (seconds k : ℕ)
    → seconds / 60 + k < 2 ^ 63
    → unix_minute (pos seconds) (pos k) ≡ ok (seconds / 60 + k)
unfolding unix_minute whole_minutes saturating_add ◌+ℤ◌ expect_unsigned
unix_minute_ahead seconds k h = ground arith

-- For such a timestamp, an offset of `k + 1` minutes back gives the minute of the clock less `k + 1`,
-- or panics if that is below zero.
pub unix_minute_back :
    (seconds k : ℕ)
    → seconds / 60 < 2 ^ 63
    → unix_minute (pos seconds) (negsuc k)
      ≡ (if ltb k (seconds / 60) then ok (seconds / 60 - (k + 1)) else panic)
unfolding unix_minute whole_minutes saturating_add ◌+ℤ◌ expect_unsigned
unix_minute_back seconds k h = ground arith
