-- ===== src/Security/Certificate.antt =====
-- internal/checker/security.go: the findings that `AnalyzeSecurity` adds itself, on the connection,
-- the verification, the leaf certificate and the warnings.
use ssl_certificate_verifier.Base.{
  not, ◌&&◌, ◌||◌, List, [], ◌∷◌, ◌++◌, if◌then◌else◌, Text, codes, str_eq, is_empty, ◌==◌, ltb,
}
use ssl_certificate_verifier.Base.Int.{ℤ, pos, leb_ℤ, ltb_ℤ}
use ssl_certificate_verifier.Strings.{to_lower, to_upper, contains, join}
use ssl_certificate_verifier.Types.{Result, SecurityFinding, CertificateInfo}
use ssl_certificate_verifier.Security.Finding.{finding, add_if, blank_dash}

unfoldable pub connection_findings : Result → List SecurityFinding
connection_findings r =
    add_if (str_eq r.protocol (codes "HTTP") && r.http.plaintext) (
      finding (codes "plain_http") (codes "Plain HTTP endpoint") (codes "high") (codes "fail") (
        codes
          "The target was checked over plain HTTP, so no TLS certificate protects the connection."))
    ++ (add_if (r.tls.attempted && not r.tls.connected) (
          finding (codes "tls_handshake") (codes "TLS handshake failed") (codes "critical")
            (codes "fail") (blank_dash r.tls.error))
        ++ add_if r.tls.connected (
            if r.tls.compression
            then finding (codes "tls_compression") (codes "TLS compression enabled") (codes "high")
                (codes "fail") (codes "TLS compression can expose CRIME-style attacks.")
            else finding (codes "tls_compression") (codes "TLS compression disabled") (codes "info")
                (codes "pass") (codes "TLS compression was not negotiated.")))

-- The finding on trust.
unfoldable pub trust_finding : Result → SecurityFinding
trust_finding r =
    if r.verification.verified
    then finding (codes "certificate_trust") (codes "Certificate trusted") (codes "info")
        (codes "pass")
        (codes "The leaf certificate built to a trusted root and matched the requested identity.")
    else finding (codes "certificate_trust") (codes "Certificate trust problem") (codes "critical")
        (codes "fail") (join r.verification.errors (codes "; "))

unfoldable pub verification_findings : Result → List SecurityFinding
verification_findings r =
    if r.verification.checked
    then trust_finding r
      ∷ (add_if r.verification.expired (
            finding (codes "certificate_expired") (codes "Certificate expired") (codes "critical")
              (codes "fail") (codes "The leaf certificate is past its NotAfter date."))
          ++ (add_if r.verification.not_yet_valid (
                finding (codes "certificate_not_yet_valid") (codes "Certificate not yet valid")
                  (codes "high") (codes "fail")
                  (codes "The leaf certificate NotBefore date is in the future."))
              ++ (add_if r.verification.self_signed_leaf (
                    finding (codes "self_signed_leaf") (codes "Self-signed leaf") (codes "high")
                      (codes "fail") (codes "The server presented a self-signed leaf certificate."))
                  ++ add_if
                      (not r.verification.hostname_verified && r.verification.hostname_checked)
                      (finding (codes "hostname_mismatch") (codes "Hostname mismatch")
                        (codes "critical") (codes "fail")
                        (codes
                          "The certificate does not match the requested verification name.")))))
    else []

unfoldable pub expiry_findings : ℤ → List SecurityFinding
expiry_findings days =
    if leb_ℤ (pos 0) days && leb_ℤ days (pos 14)
    then finding (codes "expires_soon") (codes "Certificate expires very soon") (codes "high")
        (codes "warn") (codes "The leaf certificate expires within 14 days.")
      ∷ []
    else add_if (ltb_ℤ (pos 14) days && leb_ℤ days (pos 30)) (
        finding (codes "expires_soon") (codes "Certificate expires soon") (codes "medium")
          (codes "warn") (codes "The leaf certificate expires within 30 days."))

unfoldable pub leaf_findings : Result → List CertificateInfo → List SecurityFinding
leaf_findings r [] = []
leaf_findings r (leaf ∷ others) =
    let algorithm = to_upper leaf.signature_algorithm in
    expiry_findings leaf.days_remaining
    ++ (add_if (contains algorithm (codes "SHA1") || contains algorithm (codes "MD5")) (
          finding (codes "weak_signature") (codes "Weak certificate signature") (codes "high")
            (codes "fail") (codes "The leaf certificate uses a deprecated signature hash."))
        ++ (add_if
              (str_eq leaf.public_key_algorithm (codes "RSA")
                && ltb 0 leaf.public_key_size
                && ltb leaf.public_key_size 2048)
              (finding (codes "weak_key") (codes "Weak RSA key") (codes "high") (codes "fail")
                (codes "RSA server certificates should use at least 2048-bit keys."))
            ++ (add_if (is_empty leaf.ocsp_servers && is_empty leaf.crl_distribution_points) (
                  finding (codes "revocation_info") (codes "No revocation endpoints")
                    (codes "medium") (codes "warn")
                    (codes "The leaf certificate does not advertise OCSP or CRL endpoints."))
                ++ add_if (leaf.embedded_sct_count == 0 && r.tls.sct_count == 0) (
                    finding (codes "certificate_transparency") (codes "No SCTs observed")
                      (codes "medium") (codes "warn")
                      (codes
                        "No embedded or handshake certificate transparency timestamps were observed.")))))

unfoldable pub warning_findings : List Text → List SecurityFinding
warning_findings [] = []
warning_findings (warning ∷ warnings) =
    add_if
      (contains (to_lower warning) (codes "intermediate")
        || contains (to_lower warning) (codes "chain order"))
      (finding (codes "chain_installation") (codes "Certificate chain installation warning")
        (codes "medium") (codes "warn") warning)
    ++ warning_findings warnings
