-- ===== src/Cert/Info/Time.antt =====
-- Spans of time, as Go's `time` package computes them. The quotient of the floating point numbers
-- `Hours()` and 24 is modelled by the exact one: they can differ only within a microsecond of a
-- whole number of days.
use ssl_certificate_verifier.Base.{ℕ, ◌+◌, ◌*◌, ◌/◌, ◌^◌, ◌-◌, if◌then◌else◌}
use ssl_certificate_verifier.Base.Int.{ℤ, pos, negsuc, ◌-ℤ◌, ltb_ℤ, sub_ℕ}
use ssl_certificate_verifier.Types.{Instant, Duration}

abbrev max_duration : Duration
max_duration = pos (2 ^ 63 - 1)

abbrev min_duration : Duration
min_duration = negsuc (2 ^ 63 - 1)

-- `t.Sub(u)`, which stops at the bounds of a duration.
unfoldable pub time_sub : Instant → Instant → Duration
time_sub t u =
    let d = t -ℤ u in
    if ltb_ℤ max_duration d then max_duration else if ltb_ℤ d min_duration then min_duration else d

abbrev pub nanoseconds_per_day : ℕ
nanoseconds_per_day = 24 * 3600 * 1000000000

-- `int64(d.Hours() / 24)`: the fraction is cut off, towards zero.
unfoldable pub whole_days : Duration → ℤ
whole_days (pos n) = pos (n / nanoseconds_per_day)
whole_days (negsuc n) = sub_ℕ 0 ((n + 1) / nanoseconds_per_day)

unfoldable pub days_between : Instant → Instant → ℤ
days_between not_after now = whole_days (time_sub not_after now)
