-- ===== src/Tls/Version.antt =====
-- internal/checker/tls.go: `tlsVersionValue` and `tlsVersionName`.
use ssl_certificate_verifier.Base.{
  ℕ, ◌/◌, ◌%◌, ◌≤◌, ◌≡◌, ◌≢◌, ◌⊎◌, inl, inr, refl, arith, ◌||◌, [], ◌∷◌, ◌++◌, ◌==◌, if◌then◌else◌,
  Text, codes, str_eq, is_empty, Outcome, ok, err,
}
use ssl_certificate_verifier.Strings.{
  trim_space, to_lower, trim_prefix, replace_byte, quote, hex_digit, text_runs,
}

-- `tls.VersionTLS10` and its successors.
abbrev pub version_tls10 : ℕ
version_tls10 = 0x0301

abbrev pub version_tls11 : ℕ
version_tls11 = 0x0302

abbrev pub version_tls12 : ℕ
version_tls12 = 0x0303

abbrev pub version_tls13 : ℕ
version_tls13 = 0x0304

-- The spelling that the switch looks at.
unfoldable pub bare_version : Text → Text
bare_version s =
    let no_tls = trim_prefix s (codes "tls") in
    let no_v = trim_prefix no_tls (codes "v") in
    let no_blank = trim_prefix no_v (codes " ") in
    let dotted = replace_byte no_blank b'_' b'.' in replace_byte dotted b'-' b'.'

-- The switch of `tlsVersionValue`; the second argument is `raw`.
unfoldable pub version_switch : Text → Text → Outcome ℕ
version_switch s raw =
    if str_eq s (codes "1") || str_eq s (codes "1.0") || str_eq s (codes "10")
    then ok version_tls10
    else if str_eq s (codes "1.1") || str_eq s (codes "11")
    then ok version_tls11
    else if str_eq s (codes "1.2") || str_eq s (codes "12")
    then ok version_tls12
    else if str_eq s (codes "1.3") || str_eq s (codes "13")
    then ok version_tls13
    else err (codes "unsupported TLS version " ++ quote raw)

unfoldable pub tls_version_value : Text → Outcome ℕ
tls_version_value raw =
    let s = to_lower (trim_space raw) in
    if is_empty s then ok 0 else version_switch (bare_version s) raw

-- The verb `%04x` of a 16-bit number.
abbrev hex4 : ℕ → Text
hex4 v =
    hex_digit (v / 4096 % 16)
    ∷ hex_digit (v / 256 % 16)
    ∷ hex_digit (v / 16 % 16)
    ∷ hex_digit (v % 16)
    ∷ []

pub tls_version_name : ℕ → Text
tls_version_name v =
    if v == version_tls10
    then codes "TLS 1.0"
    else if v == version_tls11
    then codes "TLS 1.1"
    else if v == version_tls12
    then codes "TLS 1.2"
    else if v == version_tls13
    then codes "TLS 1.3"
    else codes "0x" ++ hex4 v

version_switch_range :
    (s raw : Text) (v : ℕ) → version_switch s raw ≡ ok v → (version_tls10 ≤ v) × (v ≤ version_tls13)
unfolding version_switch
version_switch_range s raw v h = ground arith

is_empty-to_lower : (s : Text) → is_empty (to_lower s) ≡ is_empty s
unfolding to_lower
is_empty-to_lower [] = refl
is_empty-to_lower (c ∷ s) = refl

-- An accepted version is 0 exactly for a blank text, and one of TLS 1.0 to 1.3 otherwise.
pub tls_version_value_range :
    (raw : Text) (v : ℕ)
    → tls_version_value raw ≡ ok v
    → ((trim_space raw ≡ []) × (v ≡ 0))
      ⊎ ((trim_space raw ≢ []) × (version_tls10 ≤ v) × (v ≤ version_tls13))
unfolding tls_version_value
tls_version_value_range raw v h = ground (
  arith,
  is_empty-to_lower (trim_space raw),
  version_switch_range (bare_version (to_lower (trim_space raw))) raw v,
)

version-cases :
    (v : ℕ)
    → version_tls10 ≤ v
    → v ≤ version_tls13
    → (v ≡ version_tls10) ⊎ ((v ≡ version_tls11) ⊎ ((v ≡ version_tls12) ⊎ (v ≡ version_tls13)))
version-cases v lo hi = grind arith

names_read :
    (tls_version_value (tls_version_name version_tls10) ≡ ok version_tls10)
    × (tls_version_value (tls_version_name version_tls11) ≡ ok version_tls11)
    × (tls_version_value (tls_version_name version_tls12) ≡ ok version_tls12)
    × (tls_version_value (tls_version_name version_tls13) ≡ ok version_tls13)
unfolding tls_version_value tls_version_name version_switch bare_version text_runs
names_read = (refl, refl, refl, refl)

-- The name of each version is read back as that version.
tls_version_value-name :
    (v : ℕ) → version_tls10 ≤ v → v ≤ version_tls13 → tls_version_value (tls_version_name v) ≡ ok v
tls_version_value-name v lo hi = elim (version-cases v lo hi) [
  | inl e ↦ rw e names_read.0
  | inr (inl e) ↦ rw e names_read.1
  | inr (inr (inl e)) ↦ rw e names_read.2
  | inr (inr (inr e)) ↦ rw e names_read.3
]
