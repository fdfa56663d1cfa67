-- ===== src/Go/Time.antt =====
-- `time.Time` as nanoseconds from 1970-01-01 UTC, and `time.Duration` as nanoseconds in an `int64`.
use hoodalpha.Prelude.{ltb, if◌then◌else◌, ℕ, ◌+◌, ◌-◌, ◌*◌, ◌^◌, ◌<◌, ◌≡◌, Bool, false, arith}
use hoodalpha.Prelude.Int.{
  ℤ, pos, negsuc, ◌+ℤ◌, ◌-ℤ◌, scale, ◌≤ℤ◌, ltb_ℤ, eqb_ℤ, to_int64, to_word64,
}

abbrev pub Time : Type 0
Time = ℤ

abbrev pub Duration : Type 0
Duration = ℤ

abbrev pub second : ℕ
second = 1_000_000_000

abbrev pub minute : ℕ
minute = 60_000_000_000

-- Seconds from the zero `time.Time`, 0001-01-01 UTC, to 1970-01-01 UTC.
abbrev unix_offset : ℕ
unix_offset = 62_135_596_800

unfoldable pub zero_time : Time
zero_time = pos 0 -ℤ pos (unix_offset * second)

-- `t.IsZero()`
unfoldable pub is_zero_time : Time → Bool
unfolding zero_time
is_zero_time t = eqb_ℤ t zero_time

-- The nearest `int64`.
unfoldable pub saturate : ℤ → Duration
saturate (pos n) = if ltb n (2 ^ 63) then pos n else pos (2 ^ 63 - 1)
saturate (negsuc n) = if ltb n (2 ^ 63) then negsuc n else negsuc (2 ^ 63 - 1)

-- `t.Sub(u)`, which is held to the range of a `Duration`.
unfoldable pub since : Time → Time → Duration
unfolding saturate
since t u = saturate (t -ℤ u)

-- `d + e` of two durations, which wraps round in an `int64`.
unfoldable pub add_duration : Duration → Duration → Duration
add_duration d e = to_int64 (to_word64 (d +ℤ e))

pub add_duration_small : (d e : ℕ) → d + e < 2 ^ 63 → add_duration (pos d) (pos e) ≡ pos (d + e)
unfolding add_duration to_int64 to_word64 ◌+ℤ◌
add_duration_small d e h = ground arith

-- `time.Unix(seconds, 0)`: seconds are counted from the zero time in an `int64`, which wraps round.
unfoldable pub unix_time : ℤ → Time
unix_time seconds =
    scale second (to_int64 (to_word64 (seconds +ℤ pos unix_offset)) -ℤ pos unix_offset)

-- A span that exceeds a limit within the range of a `Duration` exceeds it when it is held to the range.
pub since-le :
    (t u : Time) (d : ℕ) → d < 2 ^ 63 - 1 → ltb_ℤ (pos d) (since t u) ≡ false → t -ℤ u ≤ℤ pos d
unfolding since
since-le t u d h e = ground arith
