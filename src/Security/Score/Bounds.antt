-- ===== src/Security/Score/Bounds.antt =====
-- The score is 100 less the penalties of the findings, and 0 where they come to more.
use ssl_certificate_verifier.Base.{
  ℕ, ◌+◌, ◌-◌, ◌≤◌, ◌≡◌, ap, ◌∙◌, arith, ◌||◌, List, [], ◌∷◌, ◌++◌, if◌then◌else◌, Text, codes,
  str_eq,
}
use ssl_certificate_verifier.Base.Int.{ℤ, pos, ◌-ℤ◌, pos_part, neg_part}
use ssl_certificate_verifier.Types.{SecurityFinding}
use ssl_certificate_verifier.Security.Score.{is_fail, is_warn, deduct, score_from, score_findings}

-- What a severity costs, and a finding: only failures and warnings cost anything.
abbrev severity_penalty : Text → ℕ
severity_penalty severity =
    if str_eq severity (codes "critical")
    then 40
    else if str_eq severity (codes "high")
    then 25
    else if str_eq severity (codes "medium")
    then 10
    else if str_eq severity (codes "low")
    then 5
    else 0

abbrev penalty : SecurityFinding → ℕ
penalty f = if is_fail f || is_warn f then severity_penalty f.severity else 0

pub total_penalty : List SecurityFinding → ℕ
total_penalty [] = 0
total_penalty (f ∷ fs) = penalty f + total_penalty fs

deduct_parts :
    (score : ℤ) (severity : Text)
    → pos_part (deduct score severity) + neg_part score + severity_penalty severity
      ≡ neg_part (deduct score severity) + pos_part score
unfolding deduct ◌-ℤ◌
deduct_parts score severity = ground arith

score_from_parts :
    (score : ℤ) (fs : List SecurityFinding)
    → pos_part (score_from score fs) + neg_part score + total_penalty fs
      ≡ neg_part (score_from score fs) + pos_part score
unfolding score_from total_penalty
score_from_parts score [] = omega arith
score_from_parts score (f ∷ fs) = ground (
  arith,
  deduct_parts score f.severity,
  score_from_parts score fs,
  score_from_parts (deduct score f.severity) fs,
)

-- The score of a list of findings.
score_findings_lem : (fs : List SecurityFinding) → score_findings fs ≡ pos (100 - total_penalty fs)
unfolding score_findings
score_findings_lem fs = ground (arith, score_from_parts (pos 100) fs)

total_penalty-append :
    (xs ys : List SecurityFinding) → total_penalty (xs ++ ys) ≡ total_penalty xs + total_penalty ys
unfolding total_penalty
total_penalty-append [] ys = omega arith
total_penalty-append (x ∷ xs) ys = omega (arith, total_penalty-append xs ys)

-- The score is from 0 to 100, further findings never raise it, and it falls by their penalties as
-- far as it can.
pub score_findings-append :
    (xs ys : List SecurityFinding)
    → (s : ℕ) × (score_findings xs ≡ pos s)
      × (s ≤ 100)
      × (score_findings (xs ++ ys) ≡ pos (s - total_penalty ys))
score_findings-append xs ys = (
  100 - total_penalty xs,
  score_findings_lem xs,
  omega arith,
  score_findings_lem (xs ++ ys) ∙ ap pos (omega (arith, total_penalty-append xs ys)),
)
