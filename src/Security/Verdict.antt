-- ===== src/Security/Verdict.antt =====
-- What the grade of a report says of the report.
use ssl_certificate_verifier.Base.{
  ◌≡◌, ◌≢◌, arith, Bool, true, false, ◌&&◌, ◌||◌, codes, str_eq, any, any-append, some,
}
use ssl_certificate_verifier.Types.{Result, SecurityFinding}
use ssl_certificate_verifier.Security.Finding.{finding, add_if}
use ssl_certificate_verifier.Security.Certificate.{
  connection_findings, trust_finding, verification_findings,
}
use ssl_certificate_verifier.Security.Score.{is_critical_failure, score_findings}
use ssl_certificate_verifier.Security.Score.Grade.{grade_score_F}
use ssl_certificate_verifier.Security.{collect_findings, analyze_security}

-- The connection and the certificate have none of the four critical faults.
pub record IsTrusted (r : Result) : Type 0 where
  pub connected : r.tls.attempted ≡ true → r.tls.connected ≡ true
  pub verified : r.verification.checked ≡ true → r.verification.verified ≡ true
  pub not_expired : r.verification.checked ≡ true → r.verification.expired ≡ false
  pub named :
      r.verification.checked ≡ true
      → r.verification.hostname_checked ≡ true
      → r.verification.hostname_verified ≡ true

any-add_if :
    (b : Bool) (f : SecurityFinding)
    → any is_critical_failure (add_if b f) ≡ b && is_critical_failure f
unfolding any
any-add_if b f = ground arith

connection_findings-critical :
    (r : Result)
    → any is_critical_failure (connection_findings r) ≡ false
    → r.tls.attempted ≡ true
    → r.tls.connected ≡ true
unfolding connection_findings finding any codes str_eq
connection_findings-critical r none_critical attempted = ground arith

verification_findings-critical :
    (r : Result)
    → any is_critical_failure (verification_findings r) ≡ false
    → r.verification.checked ≡ true
    → (r.verification.verified ≡ true)
      × (r.verification.expired ≡ false)
      × (r.verification.hostname_checked ≡ true → r.verification.hostname_verified ≡ true)
unfolding verification_findings trust_finding finding any codes str_eq
verification_findings-critical r none_critical checked = ground arith

or_false : (a b : Bool) → a || b ≡ false → (a ≡ false) × (b ≡ false)
or_false a b h = ground arith

collect_findings-critical :
    (r : Result)
    → any is_critical_failure (collect_findings r) ≡ false
    → (any is_critical_failure (connection_findings r) ≡ false)
      × (any is_critical_failure (verification_findings r) ≡ false)
unfolding collect_findings
collect_findings-critical r h =
    let first = or_false _ _ (rw any-append at h) in
    let second = or_false _ _ (rw any-append at first.1) in (first.0, second.0)

-- A report whose grade is not F has no failed handshake, and a certificate that was checked is
-- trusted, has not expired, and matches the name if a name was checked.
pub analyze_security-IsTrusted :
    (r : Result) → (analyze_security (some r)).local_grade ≢ codes "F" → IsTrusted r
unfolding analyze_security
analyze_security-IsTrusted r graded =
    let fs = collect_findings r in
    let (connection, verification) =
      collect_findings-critical r (ground (arith, grade_score_F (score_findings fs) fs, graded)) in
    let verified = verification_findings-critical r verification in
    record {
      connected = connection_findings-critical r connection;
      verified = λ checked. (verified checked).0;
      not_expired = λ checked. (verified checked).1;
      named = λ checked. (verified checked).2;
    }
