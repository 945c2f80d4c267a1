-- ===== src/Tests/Security.antt =====
-- internal/checker/security.go and http_headers.go on concrete findings, headers and reports.
use ssl_certificate_verifier.Base.{
  ℕ, ◌-◌, ◌≤◌, ◌≡◌, ◌≢◌, refl, sym, ◌∙◌, true, false, [], ◌∷◌, ◌++◌, codes, is_empty, some,
}
use ssl_certificate_verifier.Base.Int.{pos, ◌-ℤ◌}
use ssl_certificate_verifier.Strings.{text_runs}
use ssl_certificate_verifier.Types.{
  Header, SecurityFinding, Result, empty_target_info, empty_tls_info, empty_http_info,
  empty_dns_info, empty_verification_info, empty_security_info,
}
use ssl_certificate_verifier.Headers.{header_get, analyze_http_headers, frame_protection_check}
use ssl_certificate_verifier.Security.{analyze_security, collect_findings}
use ssl_certificate_verifier.Security.Finding.{finding}
use ssl_certificate_verifier.Security.Certificate.{
  connection_findings, trust_finding, verification_findings, leaf_findings, warning_findings,
}
use ssl_certificate_verifier.Security.Protocol.{
  tls_version_supported, supported_cipher_where, add_protocol_findings, count_where,
  add_cipher_findings, not_tested_findings, add_vulnerability_findings,
}
use ssl_certificate_verifier.Security.Endpoint.{
  header_findings, add_http_header_findings, add_dns_findings,
}
use ssl_certificate_verifier.Security.Hardened.{is_hardened, header_findings-is_hardened}
use ssl_certificate_verifier.Security.Score.{score_findings, score_from, deduct, grade_score}
use ssl_certificate_verifier.Security.Score.Bounds.{total_penalty, score_findings-append}
use ssl_certificate_verifier.Security.Verdict.{IsTrusted, analyze_security-IsTrusted}

abbrev obsolete : SecurityFinding
obsolete =
    finding (codes "tls10") (codes "TLS 1.0 enabled") (codes "high") (codes "fail")
      (codes "TLS 1.0")

abbrev untrusted : SecurityFinding
untrusted =
    finding (codes "trust") (codes "Trust") (codes "critical") (codes "fail") (codes "Not trusted")

score_findings-append_example :
    (s : ℕ) × (score_findings (obsolete ∷ []) ≡ pos s)
    × (s ≤ 100)
    × (score_findings (obsolete ∷ [] ++ (untrusted ∷ []))
        ≡ pos (s - total_penalty (untrusted ∷ [])))
score_findings-append_example = score_findings-append (obsolete ∷ []) (untrusted ∷ [])

abbrev hardened : Header
hardened =
    (codes "Strict-Transport-Security", codes "max-age=1" ∷ [])
    ∷ (codes "Content-Security-Policy", codes "frame-ancestors 'none'" ∷ [])
    ∷ (codes "X-Content-Type-Options", codes "NoSniff" ∷ [])
    ∷ []

hardened_runs : is_hardened hardened ≡ true
unfolding header_get text_runs
hardened_runs = refl

header_findings-is_hardened_example :
    is_empty (header_findings (analyze_http_headers hardened false (pos 200) []))
    ≡ is_hardened hardened
header_findings-is_hardened_example = header_findings-is_hardened hardened (pos 200) []

-- A policy without `frame-ancestors` is reported as the value of an absent protection.
frame_value :
    (frame_protection_check
      ((codes "Content-Security-Policy", codes "default-src 'self'" ∷ []) ∷ [])).value
    ≡ codes "Content-Security-Policy frame-ancestors"
unfolding frame_protection_check header_get text_runs
frame_value = refl

-- A report of a server that was reached, with nothing probed.
abbrev pub report : Result
report = record {
  input = codes "a.b";
  target = empty_target_info;
  checked_at = pos 0;
  duration_millis = pos 0;
  protocol = codes "HTTP";
  tls = empty_tls_info;
  http = empty_http_info;
  dns = empty_dns_info;
  verification = empty_verification_info;
  certificates = [];
  security = empty_security_info;
  warnings = [];
  errors = [];
}

report_grade : (analyze_security (some report)).local_grade ≡ codes "A+"
unfolding analyze_security collect_findings connection_findings verification_findings leaf_findings
    warning_findings add_protocol_findings add_cipher_findings add_vulnerability_findings
    add_http_header_findings header_findings add_dns_findings tls_version_supported
    supported_cipher_where count_where finding not_tested_findings score_findings score_from deduct
    grade_score ◌-ℤ◌ text_runs trust_finding
report_grade = refl

grades_differ : codes "A+" ≢ codes "F"
unfolding text_runs
grades_differ e = cc

analyze_security-IsTrusted_example : IsTrusted report
analyze_security-IsTrusted_example =
    analyze_security-IsTrusted report (λ is_f. grades_differ (sym report_grade ∙ is_f))
