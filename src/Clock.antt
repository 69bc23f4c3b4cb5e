-- ===== src/Clock.antt =====
-- Go's `time`, as far as the API uses it. An instant is the number of nanoseconds since Go's zero
-- time (January 1, year 1, UTC), a signed duration is an int64 that wraps around.
mod Format
unfoldable pub use Format.{format_date, format_rfc3339}
use learning_center_referenc.Prelude.{
  ℕ, suc, ◌+◌, ◌-◌, ◌*◌, ◌%◌, ◌≤◌, ◌≡◌, refl, arith, ltb, if◌then◌else◌,
}

abbrev pub Instant : Type 0
Instant = ℕ

-- 24 * time.Hour
abbrev pub day : ℕ
day = 86400000000000

-- `negsuc n` is -(n + 1).
pub data ℤ : Type 0 where
  pos : ℕ → ℤ
  negsuc : ℕ → ℤ

-- The int64 with these bits.
abbrev from_bits : ℕ → ℤ
from_bits m = if ltb m 9223372036854775808 then pos m else negsuc (18446744073709551615 - m)

-- time.Duration(days) * 24 * time.Hour, in int64.
unfoldable pub duration_of_days : ℤ → ℤ
duration_of_days (pos n) = from_bits (n * day % 18446744073709551616)
duration_of_days (negsuc n) =
    from_bits ((18446744073709551616 - suc n * day % 18446744073709551616) % 18446744073709551616)

-- t.Add(d). What would lie before Go's zero time is put there: no instant is earlier, so
-- `now.Before` reads the same.
abbrev pub add : Instant → ℤ → Instant
add t (pos n) = t + n
add t (negsuc n) = t - suc n

-- Up to 106751 days the multiplication does not wrap around.
pub duration_of_days_exact : (n : ℕ) → n ≤ 106751 → duration_of_days (pos n) ≡ pos (n * day)
unfolding duration_of_days
duration_of_days_exact n h = ground arith
