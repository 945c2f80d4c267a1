-- ===== src/Cert/Info/Days.antt =====
-- The number of whole days in a span of time.
use ssl_certificate_verifier.Base.{ℕ, suc, ◌+◌, ◌*◌, ◌/◌, ◌≤◌, ◌<◌, ◌≡◌, arith}
use ssl_certificate_verifier.Base.Int.{ℤ, pos, negsuc, sub_ℕ}
use ssl_certificate_verifier.Types.{Duration}
use ssl_certificate_verifier.Cert.Info.Time.{whole_days, nanoseconds_per_day}

-- The number without its sign.
abbrev pub magnitude : ℤ → ℕ
magnitude (pos n) = n
magnitude (negsuc n) = suc n

sub_ℕ-magnitude : (n : ℕ) → magnitude (sub_ℕ 0 n) ≡ n
sub_ℕ-magnitude n = ground arith

-- The days of a span, taken without the sign, are the whole days that have passed in it: the rest
-- is cut off on both sides of zero.
pub whole_days_bounds :
    (d : Duration)
    → (nanoseconds_per_day * magnitude (whole_days d) ≤ magnitude d)
      × (magnitude d < nanoseconds_per_day * (magnitude (whole_days d) + 1))
unfolding whole_days
whole_days_bounds (pos n) = omega arith
whole_days_bounds (negsuc n) = rw (sub_ℕ-magnitude ((n + 1) / nanoseconds_per_day)) (omega arith)
