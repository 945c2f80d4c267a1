-- ===== src/Cert/Hex.antt =====
-- internal/checker/cert.go: `colonHex` and the fingerprints.
pub mod RoundTrip
use ssl_certificate_verifier.Base.{
  ℕ, ◌/◌, ◌%◌, List, [], ◌∷◌, Text, is_empty, if◌then◌else◌, codes, Outcome, ok, err, panic, Option,
  none, some,
}
use ssl_certificate_verifier.Strings.{to_upper, join, hex_digit}
use ssl_certificate_verifier.X509.{X509, Certificate}

-- `hex.EncodeToString`.
unfoldable pub hex_encode : Text → Text
hex_encode [] = []
hex_encode (b ∷ raw) = hex_digit (b / 16) ∷ hex_digit (b % 16) ∷ hex_encode raw

-- The loop that cuts the digits into pairs; the encoded text has an even length.
unfoldable pub pairs : Text → List Text
pairs [] = []
pairs (c ∷ []) = (c ∷ []) ∷ []
pairs (c ∷ d ∷ s) = (c ∷ d ∷ []) ∷ pairs s

unfoldable pub colon_hex : Text → Text
colon_hex raw = if is_empty raw then [] else join (pairs (to_upper (hex_encode raw))) (codes ":")

unfoldable pub fingerprint_sha256 : X509 → Text → Text
fingerprint_sha256 x raw = colon_hex (x.sha256 raw)

unfoldable pub fingerprint_sha1 : X509 → Text → Text
fingerprint_sha1 x raw = colon_hex (x.sha1 raw)

unfoldable pub fingerprint_md5 : X509 → Text → Text
fingerprint_md5 x raw = colon_hex (x.md5 raw)

abbrev fingerprint_of : X509 → Outcome Text → Text
fingerprint_of x (ok raw) = fingerprint_sha256 x raw
fingerprint_of x (err e) = []
fingerprint_of x panic = []

unfoldable pub public_key_sha256 : X509 → Option Certificate → Text
public_key_sha256 x none = []
public_key_sha256 x (some cert) = fingerprint_of x (x.marshal_public_key cert)
