-- ===== src/Tests/Tls.antt =====
-- internal/checker/tls.go on concrete versions, suites and errors.
use ssl_certificate_verifier.Base.{◌≡◌, refl, false, [], ◌∷◌, codes, ok}
use ssl_certificate_verifier.Strings.{text_runs}
use ssl_certificate_verifier.Tls.Version.{bare_version, version_switch, tls_version_value}
use ssl_certificate_verifier.Tls.Cipher.{CipherSuite, classify_cipher}

version_two : tls_version_value (codes " TLS1.2 ") ≡ ok 0x0303
unfolding tls_version_value bare_version version_switch text_runs
version_two = refl

abbrev gcm : CipherSuite
gcm = record {
  id = 0xc02f;
  name = codes "TLS_ECDHE_RSA_WITH_AES_128_GCM_SHA256";
  supported_versions = 0x0303 ∷ [];
  insecure = false;
}

gcm_is_modern : (classify_cipher (codes "TLS 1.2") gcm).strength ≡ codes "modern"
unfolding classify_cipher text_runs
gcm_is_modern = refl
