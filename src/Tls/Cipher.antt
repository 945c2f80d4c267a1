-- ===== src/Tls/Cipher.antt =====
-- internal/checker/tls.go: `cipherSuiteSupportsVersion` and `classifyCipher`.
use ssl_certificate_verifier.Base.{
  ℕ, ◌≡◌, ◌↔◌, arith, Bool, true, false, not, ◌||◌, List, [], ◌∷◌, ◌++◌, ◌==◌, if◌then◌else◌, Text,
  codes, any, Option, none, some, ◌/◌, ◌%◌,
}
use ssl_certificate_verifier.Strings.{to_upper, contains, hex_digit_upper}
use ssl_certificate_verifier.Types.{TlsCipherSupport}

-- `tls.CipherSuite`.
pub record CipherSuite : Type 0 where
  pub id : ℕ
  pub name : Text
  pub supported_versions : List ℕ
  pub insecure : Bool

unfoldable pub cipher_suite_supports_version : Option CipherSuite → ℕ → Bool
cipher_suite_supports_version none version = false
cipher_suite_supports_version (some suite) version =
    any (λ supported. supported == version) suite.supported_versions

-- The verb `%04X` of a 16-bit number.
abbrev hex4_upper : ℕ → Text
hex4_upper v =
    hex_digit_upper (v / 4096 % 16)
    ∷ hex_digit_upper (v / 256 % 16)
    ∷ hex_digit_upper (v / 16 % 16)
    ∷ hex_digit_upper (v % 16)
    ∷ []

unfoldable pub classify_cipher : Text → CipherSuite → TlsCipherSupport
classify_cipher version suite =
    let upper = to_upper suite.name in
    let rc4 = contains upper (codes "_RC4_") in
    let triple_des = contains upper (codes "_3DES_") in
    let cbc = contains upper (codes "_CBC_") in
    let aead =
      contains upper (codes "_GCM_")
      || contains upper (codes "CHACHA20")
      || contains upper (codes "_CCM_") in
    let forward_secrecy = contains upper (codes "_ECDHE_") || contains upper (codes "_DHE_") in
    let strength =
      if suite.insecure || rc4 || triple_des
      then codes "weak"
      else if contains version (codes "1.0")
          || contains version (codes "1.1")
          || cbc
          || not forward_secrecy
      then codes "legacy"
      else codes "modern" in
    record {
      version = version;
      id = codes "0x" ++ hex4_upper suite.id;
      name = suite.name;
      supported = false;
      insecure = suite.insecure || rc4 || triple_des;
      strength = strength;
      forward_secrecy = forward_secrecy;
      aead = aead;
      cbc = cbc;
      rc4 = rc4;
      triple_des = triple_des;
      error = [];
    }

-- A suite counts as weak exactly if it is reported insecure, and as modern exactly if it is secure,
-- has forward secrecy and no CBC mode, and the version is neither 1.0 nor 1.1.
pub classify_cipher_strength :
    (version : Text) (suite : CipherSuite)
    → (((classify_cipher version suite).strength ≡ codes "weak")
        ↔ ((classify_cipher version suite).insecure ≡ true))
      × (((classify_cipher version suite).strength ≡ codes "modern") ↔ (
          ((classify_cipher version suite).insecure ≡ false)
          × ((classify_cipher version suite).forward_secrecy ≡ true)
          × ((classify_cipher version suite).cbc ≡ false)
          × (contains version (codes "1.0") ≡ false)
          × (contains version (codes "1.1") ≡ false)))
unfolding classify_cipher codes
classify_cipher_strength version suite = ground arith
