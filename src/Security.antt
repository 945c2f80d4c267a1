-- ===== src/Security.antt =====
-- internal/checker/security.go: `AnalyzeSecurity`, the score, the grade and the summary.
pub mod Finding
pub mod Certificate
pub mod Protocol
pub mod Endpoint
pub mod Score
pub mod Hardened
pub mod Stable
pub mod Verdict
use ssl_certificate_verifier.Base.{List, ◌++◌, Option, none, some}
use ssl_certificate_verifier.Types.{Result, SecurityFinding, SecurityInfo, empty_security_info}
use ssl_certificate_verifier.Security.Certificate.{
  connection_findings, verification_findings, leaf_findings, warning_findings,
}
use ssl_certificate_verifier.Security.Protocol.{
  add_protocol_findings, add_cipher_findings, add_vulnerability_findings,
}
use ssl_certificate_verifier.Security.Endpoint.{add_http_header_findings, add_dns_findings}
use ssl_certificate_verifier.Security.Score.{score_findings, grade_score, summary_for_score}

unfoldable pub collect_findings : Result → List SecurityFinding
collect_findings r =
    connection_findings r
    ++ (verification_findings r
        ++ (leaf_findings r r.certificates
            ++ (warning_findings r.warnings
                ++ (add_protocol_findings r
                    ++ (add_cipher_findings r
                        ++ (add_http_header_findings r
                            ++ (add_dns_findings r ++ add_vulnerability_findings r)))))))

unfoldable pub analyze_security : Option Result → SecurityInfo
analyze_security none = empty_security_info
analyze_security (some r) =
    let findings = collect_findings r in
    let score = score_findings findings in
    record {
      local_grade = grade_score score findings;
      score = score;
      summary = summary_for_score score findings;
      findings = findings;
    }
