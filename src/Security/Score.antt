-- ===== src/Security/Score.antt =====
-- internal/checker/security.go: `scoreFindings`, `gradeScore` and `summaryForScore`.
pub mod Bounds
pub mod Grade
use ssl_certificate_verifier.Base.{
  ℕ, suc, ◌+◌, Bool, true, false, not, ◌&&◌, ◌||◌, List, [], ◌∷◌, if◌then◌else◌, Text, codes,
  str_eq, any, ltb,
}
use ssl_certificate_verifier.Base.Int.{ℤ, pos, ◌-ℤ◌, leb_ℤ, ltb_ℤ}
use ssl_certificate_verifier.Types.{SecurityFinding}

abbrev pub is_fail : SecurityFinding → Bool
is_fail f = str_eq f.status (codes "fail")

abbrev pub is_warn : SecurityFinding → Bool
is_warn f = str_eq f.status (codes "warn")

-- The switch on the severity.
unfoldable pub deduct : ℤ → Text → ℤ
deduct score severity =
    if str_eq severity (codes "critical")
    then score -ℤ pos 40
    else if str_eq severity (codes "high")
    then score -ℤ pos 25
    else if str_eq severity (codes "medium")
    then score -ℤ pos 10
    else if str_eq severity (codes "low")
    then score -ℤ pos 5
    else score

-- The loop of `scoreFindings`.
unfoldable pub score_from : ℤ → List SecurityFinding → ℤ
score_from score [] = score
score_from score (finding ∷ findings) =
    score_from
      (if not (is_fail finding) && not (is_warn finding)
        then score
        else deduct score finding.severity)
      findings

unfoldable pub score_findings : List SecurityFinding → ℤ
score_findings findings =
    let score = score_from (pos 100) findings in if ltb_ℤ score (pos 0) then pos 0 else score

abbrev pub is_critical_failure : SecurityFinding → Bool
is_critical_failure f = is_fail f && str_eq f.severity (codes "critical")

unfoldable pub grade_score : ℤ → List SecurityFinding → Text
grade_score score findings =
    if any is_critical_failure findings
    then codes "F"
    else if leb_ℤ (pos 95) score
    then codes "A+"
    else if leb_ℤ (pos 90) score
    then codes "A"
    else if leb_ℤ (pos 80) score
    then codes "B"
    else if leb_ℤ (pos 70) score
    then codes "C"
    else if leb_ℤ (pos 60) score
    then codes "D"
    else codes "F"

-- The two counters of `summaryForScore`.
pub count_status : Text → List SecurityFinding → ℕ
count_status status [] = 0
count_status status (finding ∷ findings) =
    (if str_eq finding.status status then 1 else 0) + count_status status findings

pub summary_for_score : ℤ → List SecurityFinding → Text
summary_for_score score findings =
    if ltb 0 (count_status (codes "fail") findings)
    then codes "Local scan found certificate, protocol, or configuration failures."
    else if ltb 0 (count_status (codes "warn") findings)
    then codes
        "Local scan found warnings; review before treating this endpoint as production ready."
    else if leb_ℤ (pos 90) score
    then codes "Local scan did not find major certificate or TLS configuration issues."
    else codes "Local scan completed."
