-- ===== src/Target/Port.antt =====
-- internal/checker/parse.go: `parsePort`.
use ssl_certificate_verifier.Base.{
  ℕ, zero, suc, ◌+◌, ◌/◌, ◌%◌, ◌^◌, ◌≤◌, ◌<◌, ◌≡◌, arith, Bool, true, ◌||◌, [], ◌∷◌, ◌++◌,
  if◌then◌else◌, ltb, Text, codes, Option, none, some, Outcome, ok, err, Bool-cases, inl, inr, All,
}
use ssl_certificate_verifier.Base.Int.{ℤ, pos, negsuc, ltb_ℤ}
use ssl_certificate_verifier.Strings.{atoi, itoa, digits_onto, value, value_from, quote}

abbrev pub out_of_range : Option ℤ → Bool
out_of_range none = true
out_of_range (some p) = ltb_ℤ p (pos 1) || ltb_ℤ (pos 65535) p

abbrev or_zero : Option ℤ → ℤ
or_zero none = pos 0
or_zero (some p) = p

unfoldable pub parse_port : Text → Outcome ℤ
parse_port raw =
    let p = atoi raw in
    if out_of_range p then err (codes "invalid port " ++ quote raw) else ok (or_zero p)

-- An accepted port is a number from 1 to 65535.
pub parse_port_bounds :
    (raw : Text) (p : ℤ) → parse_port raw ≡ ok p → (n : ℕ) × (p ≡ pos n) × (1 ≤ n) × (n ≤ 65535)
unfolding parse_port
parse_port_bounds raw p h = bounded (atoi raw) h
  where
    bounded :
        (o : Option ℤ)
        → (if out_of_range o then err (codes "invalid port " ++ quote raw) else ok (or_zero o))
          ≡ ok p
        → (n : ℕ) × (p ≡ pos n) × (1 ≤ n) × (n ≤ 65535)
    bounded none h = cc
    bounded (some (pos n)) h = (n, ground arith, ground arith, ground arith)
    bounded (some (negsuc n)) h = ground arith

-- Reading back the decimal digits of a number, with any digits behind.
value_from-digits_onto :
    (f n : ℕ) (out : Text) → n < f → value_from 0 (digits_onto f n out) ≡ value_from n out
unfolding value_from digits_onto
value_from-digits_onto zero n out h = absurd (omega arith)
value_from-digits_onto (suc f) n out h =
    ground (arith, value_from-digits_onto f (n / 10) ((b'0' + n % 10) ∷ out))

digits_onto-head :
    (f n : ℕ) (out : Text)
    → n < f
    → (c : ℕ) × (rest : Text) × (digits_onto f n out ≡ c ∷ rest) × (b'0' ≤ c) × (c ≤ b'9')
unfolding digits_onto
digits_onto-head zero n out h = absurd (omega arith)
digits_onto-head (suc f) n out h = elim (Bool-cases (ltb n 10)) [
  | inl small ↦ (b'0' + n, out, rw small, omega arith, ground arith)
  | inr large ↦ rw large (digits_onto-head f (n / 10) ((b'0' + n % 10) ∷ out) (ground arith))
]

itoa-head : (n : ℕ) → (c : ℕ) × (rest : Text) × (itoa n ≡ c ∷ rest) × (b'0' ≤ c) × (c ≤ b'9')
unfolding itoa
itoa-head n = digits_onto-head (suc n) n [] (omega arith)

value_from-itoa : (n : ℕ) → value_from 0 (itoa n) ≡ some n
unfolding value_from itoa
value_from-itoa n = value_from-digits_onto (suc n) n [] (omega arith)

atoi-itoa : (n : ℕ) → n < 2 ^ 63 → atoi (itoa n) ≡ some (pos n)
unfolding atoi value
atoi-itoa n h =
    let (c, rest, shape, lo, hi) = itoa-head n in ground (arith, shape, value_from-itoa n)

-- Every port from 1 to 65535 is read back from its decimal form.
pub parse_port-itoa : (n : ℕ) → 1 ≤ n → n ≤ 65535 → parse_port (itoa n) ≡ ok (pos n)
unfolding parse_port
parse_port-itoa n lo hi = rw (atoi-itoa n (omega arith)) (ground arith)

abbrev pub IsDigit : ℕ → Type 0
IsDigit c = (b'0' ≤ c) × (c ≤ b'9')

digits_onto-IsDigit :
    (f n : ℕ) (out : Text) → n < f → All IsDigit out → All IsDigit (digits_onto f n out)
unfolding digits_onto
digits_onto-IsDigit zero n out h d = d
digits_onto-IsDigit (suc f) n out h d = elim (Bool-cases (ltb n 10)) [
  | inl small ↦ rw small ((omega arith, ground arith), d)
  | inr large ↦
      rw large
        (digits_onto-IsDigit f (n / 10) ((b'0' + n % 10) ∷ out) (ground arith) (omega arith, d))
]

pub itoa-IsDigit : (n : ℕ) → All IsDigit (itoa n)
unfolding itoa
itoa-IsDigit n = digits_onto-IsDigit (suc n) n [] (omega arith) tt
