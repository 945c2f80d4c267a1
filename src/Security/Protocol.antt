-- ===== src/Security/Protocol.antt =====
-- internal/checker/security.go: the findings on protocol versions and cipher suites.
use ssl_certificate_verifier.Base.{
  ℕ, ◌+◌, Bool, not, ◌&&◌, ◌||◌, List, [], ◌∷◌, ◌++◌, if◌then◌else◌, Text, codes, str_eq, is_empty,
  any, ltb,
}
use ssl_certificate_verifier.Strings.{contains}
use ssl_certificate_verifier.Types.{Result, SecurityFinding, TlsCipherSupport}
use ssl_certificate_verifier.Security.Finding.{finding, add_if}

unfoldable pub tls_version_supported : Result → Text → Bool
tls_version_supported r version =
    any (λ item. str_eq item.version version && item.supported) r.tls.supported_versions

unfoldable pub supported_cipher_where : Result → (TlsCipherSupport → Bool) → Bool
supported_cipher_where r fn = any (λ cipher. cipher.supported && fn cipher) r.tls.supported_ciphers

unfoldable pub add_protocol_findings : Result → List SecurityFinding
add_protocol_findings r =
    let tls10 = tls_version_supported r (codes "TLS 1.0") in
    let tls11 = tls_version_supported r (codes "TLS 1.1") in
    let tls12 = tls_version_supported r (codes "TLS 1.2") in
    let tls13 = tls_version_supported r (codes "TLS 1.3") in
    let probed = not (is_empty r.tls.supported_versions) in
    add_if tls10 (
      finding (codes "tls10") (codes "TLS 1.0 enabled") (codes "high") (codes "fail")
        (codes "TLS 1.0 is obsolete and exposes legacy protocol risk."))
    ++ (add_if tls11 (
          finding (codes "tls11") (codes "TLS 1.1 enabled") (codes "medium") (codes "fail")
            (codes "TLS 1.1 is obsolete and should be disabled."))
        ++ (add_if (not tls12 && not tls13 && probed) (
              finding (codes "modern_tls_missing") (codes "Modern TLS missing") (codes "critical")
                (codes "fail") (codes "Neither TLS 1.2 nor TLS 1.3 was accepted."))
            ++ (if tls13
                then finding (codes "tls13") (codes "TLS 1.3 enabled") (codes "info") (codes "pass")
                    (codes "TLS 1.3 is supported.")
                  ∷ []
                else add_if probed (
                    finding (codes "tls13") (codes "TLS 1.3 not enabled") (codes "info")
                      (codes "info")
                      (codes
                        "TLS 1.3 was not accepted; TLS 1.2 can still be acceptable when configured safely.")))))

-- The loop of `addCipherFindings`: how many accepted suites are weak, legacy, without forward
-- secrecy.
unfoldable pub count_where : (TlsCipherSupport → Bool) → List TlsCipherSupport → ℕ
count_where test [] = 0
count_where test (cipher ∷ ciphers) =
    (if cipher.supported && test cipher then 1 else 0) + count_where test ciphers

abbrev is_weak : TlsCipherSupport → Bool
is_weak cipher = cipher.insecure || cipher.rc4 || cipher.triple_des

abbrev is_legacy : TlsCipherSupport → Bool
is_legacy cipher = str_eq cipher.strength (codes "legacy") || cipher.cbc

unfoldable pub add_cipher_findings : Result → List SecurityFinding
add_cipher_findings r =
    let ciphers = r.tls.supported_ciphers in
    if is_empty ciphers
    then finding (codes "cipher_scan") (codes "Cipher inventory not available") (codes "info")
        (codes "not_tested") (codes "Cipher scan was skipped or no cipher probes were completed.")
      ∷ []
    else (if ltb 0 (count_where is_weak ciphers)
        then finding (codes "weak_ciphers") (codes "Weak cipher suites enabled") (codes "high")
            (codes "fail")
            (codes "The server accepted RC4, 3DES, or cipher suites marked insecure by Go.")
        else finding (codes "weak_ciphers") (codes "No weak ciphers accepted") (codes "info")
            (codes "pass")
            (codes
              "No RC4, 3DES, or Go-insecure cipher suites were accepted during the local scan."))
      ∷ (add_if (ltb 0 (count_where is_legacy ciphers)) (
            finding (codes "legacy_ciphers") (codes "Legacy cipher suites accepted")
              (codes "medium") (codes "warn")
              (codes "The server accepted CBC or other legacy cipher suites."))
          ++ ((if ltb 0 (count_where (λ cipher. not cipher.forward_secrecy) ciphers)
                then finding (codes "forward_secrecy") (codes "Cipher without forward secrecy")
                    (codes "medium") (codes "warn")
                    (codes "At least one accepted cipher suite does not provide forward secrecy.")
                else finding (codes "forward_secrecy") (codes "Forward secrecy") (codes "info")
                    (codes "pass")
                    (codes
                      "All accepted TLS 1.0-1.2 cipher suites in the local scan used ECDHE or DHE."))
              ∷ []))

-- The three checks that are never performed.
unfoldable pub not_tested_findings : List SecurityFinding
not_tested_findings =
    finding (codes "poodle") (codes "POODLE SSLv3 check") (codes "info") (codes "not_tested") (
      codes
        "SSLv3 is not supported by Go's TLS client, so this scanner cannot negotiate SSLv3 to test POODLE directly.")
    ∷ finding (codes "heartbleed") (codes "Heartbleed check") (codes "info") (codes "not_tested") (
        codes
          "Heartbeat extension exploitation requires a dedicated low-level TLS probe and is not attempted by this scanner.")
    ∷ finding (codes "ticketbleed") (codes "Ticketbleed check") (codes "info") (codes "not_tested")
        (codes
          "Ticketbleed requires implementation-specific session-ticket probing and is not attempted by this scanner.")
    ∷ []

unfoldable pub add_vulnerability_findings : Result → List SecurityFinding
add_vulnerability_findings r =
    let tls10 = tls_version_supported r (codes "TLS 1.0") in
    let cbc_tls10 = supported_cipher_where r (λ c. str_eq c.version (codes "TLS 1.0") && c.cbc) in
    let static_rsa = supported_cipher_where r (λ c.
      contains c.name (codes "_RSA_")
      && not (contains c.name (codes "_ECDHE_"))
      && not (contains c.name (codes "_DHE_"))) in
    (if tls10 && cbc_tls10
      then finding (codes "beast") (codes "BEAST exposure") (codes "medium") (codes "warn") (
          codes
            "TLS 1.0 with CBC suites was accepted. Modern clients mitigate BEAST, but disabling TLS 1.0 is recommended.")
        ∷ []
      else add_if (not (is_empty r.tls.supported_versions)) (
          finding (codes "beast") (codes "BEAST exposure") (codes "info") (codes "pass")
            (codes "TLS 1.0 CBC exposure was not observed in the local probes.")))
    ++ ((if static_rsa
          then finding (codes "robot") (codes "ROBOT precondition present") (codes "medium")
              (codes "warn")
              (codes
                "Static RSA key-exchange cipher suites were accepted. A full ROBOT oracle probe is not performed by this local standard-library scanner.")
            ∷ []
          else add_if (not (is_empty r.tls.supported_ciphers)) (
              finding (codes "robot") (codes "ROBOT precondition absent") (codes "info")
                (codes "pass")
                (codes
                  "No static RSA key-exchange cipher suites were accepted in the local scan.")))
        ++ not_tested_findings)
