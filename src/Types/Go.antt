-- ===== src/Types/Go.antt =====
-- Names for Go's types. An instant and a span are counted in nanoseconds.
use ssl_certificate_verifier.Base.{ℕ, List, Text}
use ssl_certificate_verifier.Base.Int.{ℤ}

abbrev pub Bytes : Type 0
Bytes = List ℕ

abbrev pub Instant : Type 0
Instant = ℤ

abbrev pub Duration : Type 0
Duration = ℤ

-- A map from names to values, as the pairs of its range.
abbrev pub Header : Type 0
Header = List (Text × List Text)
