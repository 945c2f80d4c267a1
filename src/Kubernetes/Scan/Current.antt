-- ===== src/Kubernetes/Scan/Current.antt =====
-- The certificates of a scan whose status is `valid`.
use mathlib.Core.List.{Memᴰ}
use mathlib.Core.List.Memᴰ.{head, tail}
use ssl_certificate_verifier.Base.{
  ℕ, ◌+◌, ◌≡◌, refl, sym, ◌∙◌, arith, Bool, true, false, not, ◌&&◌, List, [], ◌∷◌, Text, codes,
  str_eq_iff, ok, All, subst,
}
use ssl_certificate_verifier.Base.Int.{ltb_ℤ}
use ssl_certificate_verifier.Types.{Instant, CertificateInfo}
use ssl_certificate_verifier.X509.{X509, Certificate}
use ssl_certificate_verifier.Cert.Info.Laws.{Reports, ReportsFrom}
use ssl_certificate_verifier.Kubernetes.{Files, KubernetesCertificate}
use ssl_certificate_verifier.Kubernetes.Scan.{Decoders, read_certificates}
use ssl_certificate_verifier.Kubernetes.Scan.Source.{IsFrom}

-- A certificate that was read from the path has begun at the time, and is not over.
pub record IsCurrent (files : Files) (dec : Decoders) (now : Instant)
    (found : KubernetesCertificate) : Type 0 where
  pub certs : List Certificate
  pub cert : Certificate
  pub is_read : read_certificates files dec found.path ≡ ok certs
  pub is_one : Memᴰ cert certs
  pub is_named : found.certificate.subject_common_name ≡ cert.subject.common_name
  pub has_begun : ltb_ℤ now cert.not_before ≡ false
  pub not_over : ltb_ℤ cert.not_after now ≡ false

-- The certificate that a report is on.
reported_one :
    (x : X509) (now : Instant) (i : ℕ) (certs : List Certificate) (infos : List CertificateInfo)
    (info : CertificateInfo)
    → ReportsFrom x now i certs infos
    → Memᴰ info infos
    → (cert : Certificate) × Memᴰ cert certs × ((j : ℕ) × Reports x now j cert info)
reported_one x now i [] [] info reports m = elim m [ ]
reported_one x now i [] (first ∷ infos) info reports m = absurd reports
reported_one x now i (cert ∷ certs) [] info reports m = absurd reports
reported_one x now i (cert ∷ certs) (first ∷ infos) info reports (head e) =
    (cert, head refl, (i, subst (Reports x now i cert) (sym e) reports.0))
reported_one x now i (cert ∷ certs) (first ∷ infos) info reports (tail m) =
    let (found, one, report) = reported_one x now (i + 1) certs infos info reports.1 m in
    (found, tail one, report)

both_false : (a b : Bool) → not a && not b ≡ true → (a ≡ false) × (b ≡ false)
both_false a b h = ground arith

pub IsFrom-IsCurrent :
    (files : Files) (dec : Decoders) (x : X509) (include_pem : Bool) (now : Instant)
    (dirs : List Text) (found : KubernetesCertificate)
    → IsFrom files dec x include_pem now dirs found
    → found.certificate.status ≡ codes "valid"
    → IsCurrent files dec now found
IsFrom-IsCurrent files dec x include_pem now dirs found from valid =
    let (cert, one, (j, report)) =
      reported_one x now 0 from.certs from.infos found.certificate from.is_reported
        from.is_listed in
    let times =
      both_false _ _
        (sym report.valid_is ∙ (str_eq_iff found.certificate.status (codes "valid")).1 valid) in
    record {
      certs = from.certs;
      cert = cert;
      is_read = from.is_read;
      is_one = one;
      is_named = report.common_name_is;
      has_begun = times.0;
      not_over = times.1;
    }

-- All certificates of a scan that are valid are current.
pub IsFrom-AllCurrent :
    (files : Files) (dec : Decoders) (x : X509) (include_pem : Bool) (now : Instant)
    (dirs : List Text) (found : List KubernetesCertificate)
    → All (IsFrom files dec x include_pem now dirs) found
    → All (λ cert. cert.certificate.status ≡ codes "valid") found
    → All (IsCurrent files dec now) found
IsFrom-AllCurrent files dec x include_pem now dirs [] from valid = tt
IsFrom-AllCurrent files dec x include_pem now dirs (cert ∷ found) from valid = (
  IsFrom-IsCurrent files dec x include_pem now dirs cert from.0 valid.0,
  IsFrom-AllCurrent files dec x include_pem now dirs found from.1 valid.1,
)
