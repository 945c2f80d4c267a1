-- ===== src/Strings/Decimal.antt =====
-- `strconv.Itoa` of a non-negative number, `strconv.Atoi`, `%q`, and hexadecimal digits.
use ssl_certificate_verifier.Base.{
  ℕ, zero, suc, ◌+◌, ◌-◌, ◌*◌, ◌/◌, ◌%◌, ◌^◌, Bool, ◌&&◌, ◌||◌, [], ◌∷◌, ◌++◌, leb, ltb, ◌==◌,
  if◌then◌else◌, Option, none, some, Text, codes,
}
use ssl_certificate_verifier.Base.Int.{ℤ, pos, negsuc}

-- `FormatInt` in base 10; `n + 1` rounds are enough.
unfoldable pub digits_onto : ℕ → ℕ → Text → Text
digits_onto zero n out = out
digits_onto (suc f) n out =
    let more = digits_onto f (n / 10) ((b'0' + n % 10) ∷ out) in
    if ltb n 10 then (b'0' + n) ∷ out else more

unfoldable pub itoa : ℕ → Text
itoa n = digits_onto (suc n) n []

unfoldable pub itoa_ℤ : ℤ → Text
itoa_ℤ (pos n) = itoa n
itoa_ℤ (negsuc n) = b'-' ∷ itoa (suc n)

abbrev pub is_digit : ℕ → Bool
is_digit c = leb b'0' c && leb c b'9'

-- The value of a run of digits behind `n`; `none` at another byte.
unfoldable pub value_from : ℕ → Text → Option ℕ
value_from n [] = some n
value_from n (c ∷ s) =
    let rest = value_from (n * 10 + (c - b'0')) s in if is_digit c then rest else none

unfoldable pub value : Text → Option ℕ
value [] = none
value (c ∷ s) = value_from 0 (c ∷ s)

abbrev in_range : ℕ → (ℕ → ℤ) → Option ℕ → Option ℤ
in_range limit sign none = none
in_range limit sign (some n) = if leb n limit then some (sign n) else none

abbrev negated : ℕ → ℤ
negated zero = pos 0
negated (suc n) = negsuc n

-- One sign, then digits; out of the range of `int64` is an error, as everything else is.
unfoldable pub atoi : Text → Option ℤ
atoi [] = none
atoi (c ∷ s) =
    if c == b'-'
    then in_range (2 ^ 63) negated (value s)
    else if c == b'+'
    then in_range (2 ^ 63 - 1) pos (value s)
    else in_range (2 ^ 63 - 1) pos (value (c ∷ s))

-- One hexadecimal digit, lower case and upper case.
abbrev pub hex_digit : ℕ → ℕ
hex_digit n = if ltb n 10 then b'0' + n else b'a' + (n - 10)

abbrev pub hex_digit_upper : ℕ → ℕ
hex_digit_upper n = if ltb n 10 then b'0' + n else b'A' + (n - 10)

abbrev quote_byte : ℕ → Text
quote_byte c =
    if c == b'"' || c == b'\\'
    then b'\\' ∷ c ∷ []
    else if c == 7
    then codes "\\a"
    else if c == 8
    then codes "\\b"
    else if c == 12
    then codes "\\f"
    else if c == 10
    then codes "\\n"
    else if c == 13
    then codes "\\r"
    else if c == 9
    then codes "\\t"
    else if c == 11
    then codes "\\v"
    else if ltb c 32 || leb 127 c
    then b'\\' ∷ b'x' ∷ hex_digit (c / 16) ∷ hex_digit (c % 16) ∷ []
    else c ∷ []

unfoldable pub quote_onto : Text → Text
quote_onto [] = b'"' ∷ []
quote_onto (c ∷ s) = quote_byte c ++ quote_onto s

-- The verb `%q`.
unfoldable pub quote : Text → Text
quote s = b'"' ∷ quote_onto s
