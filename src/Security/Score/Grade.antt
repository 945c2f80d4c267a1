-- ===== src/Security/Score/Grade.antt =====
-- When the grade is F, and what the summary says.
use ssl_certificate_verifier.Base.{
  ◌≡◌, ◌↔◌, ◌⊎◌, refl, arith, true, false, List, [], ◌∷◌, Text, codes, str_eq, any, ltb,
}
use ssl_certificate_verifier.Base.Int.{ℤ, pos, leb_ℤ, ltb_ℤ}
use ssl_certificate_verifier.Types.{SecurityFinding}
use ssl_certificate_verifier.Security.Score.{
  is_fail, is_warn, is_critical_failure, grade_score, count_status, summary_for_score,
}

-- The grade is F exactly if a finding is a critical failure or the score is below 60.
pub grade_score_F :
    (score : ℤ) (fs : List SecurityFinding)
    → (grade_score score fs ≡ codes "F")
      ↔ ((any is_critical_failure fs ≡ true) ⊎ (ltb_ℤ score (pos 60) ≡ true))
unfolding grade_score codes
grade_score_F score fs = ground arith

count_status-any :
    (status : Text) (fs : List SecurityFinding)
    → ltb 0 (count_status status fs) ≡ any (λ f. str_eq f.status status) fs
unfolding count_status any
count_status-any status [] = refl
count_status-any status (f ∷ fs) = ground (arith, count_status-any status fs)

-- The summary speaks of failures exactly if a finding has failed, and of no major issues exactly if
-- none has failed or warned and the score is 90 at least.
pub summary_for_score_lem :
    (score : ℤ) (fs : List SecurityFinding)
    → ((summary_for_score score fs
          ≡ codes "Local scan found certificate, protocol, or configuration failures.")
        ↔ (any is_fail fs ≡ true))
      × ((summary_for_score score fs
            ≡ codes "Local scan did not find major certificate or TLS configuration issues.")
          ↔ ((any is_fail fs ≡ false) × (any is_warn fs ≡ false) × (leb_ℤ (pos 90) score ≡ true)))
unfolding summary_for_score codes
summary_for_score_lem score fs =
    ground (arith, count_status-any (codes "fail") fs, count_status-any (codes "warn") fs)
