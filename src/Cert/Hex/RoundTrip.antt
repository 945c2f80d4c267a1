-- ===== src/Cert/Hex/RoundTrip.antt =====
-- A fingerprint determines the bytes: they are read back from it.
use ssl_certificate_verifier.Base.{
  ℕ, ◌+◌, ◌-◌, ◌*◌, ◌/◌, ◌%◌, ◌<◌, ◌≡◌, refl, ap, arith, [], ◌∷◌, Text, All, ltb, if◌then◌else◌,
  codes,
}
use ssl_certificate_verifier.Strings.{to_upper, to_upper_byte, join, hex_digit}
use ssl_certificate_verifier.Cert.Hex.{hex_encode, pairs, colon_hex}

-- The value of a hexadecimal digit in upper case.
abbrev nibble : ℕ → ℕ
nibble c = if ltb c b'A' then c - b'0' else c - b'A' + 10

-- The bytes that a fingerprint stands for.
abbrev pub unhex : Text → Text
unhex [] = []
unhex (c ∷ []) = []
unhex (c ∷ d ∷ []) = (nibble c * 16 + nibble d) ∷ []
unhex (c ∷ d ∷ colon ∷ s) = (nibble c * 16 + nibble d) ∷ unhex s

abbrev pub IsBytes : Text → Type 0
IsBytes = All (λ b. b < 256)

nibble-hex_digit : (n : ℕ) → n < 16 → nibble (to_upper_byte (hex_digit n)) ≡ n
nibble-hex_digit n h = ground arith

byte_of_nibbles :
    (b : ℕ)
    → b < 256
    → nibble (to_upper_byte (hex_digit (b / 16))) * 16 + nibble (to_upper_byte (hex_digit (b % 16)))
      ≡ b
byte_of_nibbles b h =
    rw (nibble-hex_digit (b / 16) (omega arith), nibble-hex_digit (b % 16) (omega arith))
      (omega arith)

-- Bytes are read back from their hexadecimal form with colons.
unhex-colon_hex : (raw : Text) → IsBytes raw → unhex (colon_hex raw) ≡ raw
unfolding colon_hex hex_encode to_upper pairs join codes
unhex-colon_hex [] h = refl
unhex-colon_hex (b ∷ []) h = ap (λ c. c ∷ []) (byte_of_nibbles b h.0)
unhex-colon_hex (b ∷ c ∷ raw) h =
    rw (byte_of_nibbles b h.0) (ap (◌∷◌ b) (unhex-colon_hex (c ∷ raw) h.1))
