-- ===== src/Clock.antt =====
-- Points in time and durations of package time, in nanoseconds. A time is counted from Go's zero
-- time (January 1 of year 1), so that `time.Time{}` is 0.
use comcent_ce.Common.{ℕ, ◌+◌, ◌-◌, ◌*◌, ◌%◌, ◌^◌, Bool, ltb, leb, if◌then◌else◌}

-- now.Before(t)
abbrev pub before : ℕ → ℕ → Bool
before now t = ltb now t

-- now.Sub(t) >= d for a duration d that is not negative. Sub saturates at the ends of an int64, which
-- cannot change the comparison with such a d.
abbrev pub since_at_least : ℕ → ℕ → ℕ → Bool
since_at_least now t d = leb (t + d) now

abbrev pub second : ℕ
second = 1_000_000_000

abbrev pub minute : ℕ
minute = 60 * second

abbrev pub hour : ℕ
hour = 60 * minute

-- now.Add(d) for a duration given by its 64-bit pattern: from 2 ^ 63 on it is negative.
unfoldable pub add_duration : ℕ → ℕ → ℕ
add_duration now d = if ltb d (2 ^ 63) then now + d else now + d - 2 ^ 64

-- time.Duration(n) * time.Second, which wraps around in an int64.
unfoldable pub seconds : ℕ → ℕ
seconds n = (n * second) % 2 ^ 64
