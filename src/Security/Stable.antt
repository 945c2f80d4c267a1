-- ===== src/Security/Stable.antt =====
-- What the analysis does not read of a report.
use ssl_certificate_verifier.Base.{◌≡◌, refl, List, [], ◌∷◌, some}
use ssl_certificate_verifier.Types.{Result, SecurityInfo, CertificateInfo}
use ssl_certificate_verifier.Security.Certificate.{
  connection_findings, verification_findings, leaf_findings, trust_finding,
}
use ssl_certificate_verifier.Security.Protocol.{
  add_protocol_findings, add_cipher_findings, add_vulnerability_findings, tls_version_supported,
  supported_cipher_where,
}
use ssl_certificate_verifier.Security.Endpoint.{add_http_header_findings, add_dns_findings}
use ssl_certificate_verifier.Security.{collect_findings, analyze_security}

module _ (r : Result) (s : SecurityInfo) where
  connection_findings_stable :
      connection_findings (record r { security = s }) ≡ connection_findings r
  unfolding connection_findings
  connection_findings_stable = refl

  verification_findings_stable :
      verification_findings (record r { security = s }) ≡ verification_findings r
  unfolding verification_findings trust_finding
  verification_findings_stable = refl

  leaf_findings_stable :
      (certs : List CertificateInfo)
      → leaf_findings (record r { security = s }) certs ≡ leaf_findings r certs
  unfolding leaf_findings
  leaf_findings_stable [] = refl
  leaf_findings_stable (leaf ∷ certs) = refl

  protocol_findings_stable :
      add_protocol_findings (record r { security = s }) ≡ add_protocol_findings r
  unfolding add_protocol_findings tls_version_supported
  protocol_findings_stable = refl

  cipher_findings_stable : add_cipher_findings (record r { security = s }) ≡ add_cipher_findings r
  unfolding add_cipher_findings
  cipher_findings_stable = refl

  http_header_findings_stable :
      add_http_header_findings (record r { security = s }) ≡ add_http_header_findings r
  unfolding add_http_header_findings
  http_header_findings_stable = refl

  dns_findings_stable : add_dns_findings (record r { security = s }) ≡ add_dns_findings r
  unfolding add_dns_findings
  dns_findings_stable = refl

  vulnerability_findings_stable :
      add_vulnerability_findings (record r { security = s }) ≡ add_vulnerability_findings r
  unfolding add_vulnerability_findings tls_version_supported supported_cipher_where
  vulnerability_findings_stable = refl

  collect_findings_stable : collect_findings (record r { security = s }) ≡ collect_findings r
  unfolding collect_findings
  collect_findings_stable =
      rw
        (
          connection_findings_stable,
          verification_findings_stable,
          leaf_findings_stable r.certificates,
          protocol_findings_stable,
          cipher_findings_stable,
          http_header_findings_stable,
          dns_findings_stable,
          vulnerability_findings_stable,
        )
        refl

  -- The analysis of a report does not depend on an earlier one.
  pub analyze_security_stable :
      analyze_security (some (record r { security = s })) ≡ analyze_security (some r)
  unfolding analyze_security
  analyze_security_stable = rw collect_findings_stable
