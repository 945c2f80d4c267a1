-- ===== src/Types/Report.antt =====
-- internal/checker/types.go: the findings and the whole report of one target.
use ssl_certificate_verifier.Base.{Text, List, []}
use ssl_certificate_verifier.Base.Int.{ℤ, pos}
use ssl_certificate_verifier.Types.Go.{Instant}
use ssl_certificate_verifier.Types.Input.{TargetInfo}
use ssl_certificate_verifier.Types.Probes.{TlsInfo, HttpInfo, DnsInfo}
use ssl_certificate_verifier.Types.Certs.{VerificationInfo, CertificateInfo}

-- SecurityFinding is a local pass/warn/fail/not-tested diagnostic.
pub record SecurityFinding : Type 0 where
  pub id : Text
  pub title : Text
  pub severity : Text
  pub status : Text
  pub description : Text

-- SecurityInfo summarizes local findings derived from the collected SSL/TLS data.
pub record SecurityInfo : Type 0 where
  pub local_grade : Text
  pub score : ℤ
  pub summary : Text
  pub findings : List SecurityFinding

-- Result is the top-level certificate and protocol report.
pub record Result : Type 0 where
  pub input : Text
  pub target : TargetInfo
  pub checked_at : Instant
  pub duration_millis : ℤ
  pub protocol : Text
  pub tls : TlsInfo
  pub http : HttpInfo
  pub dns : DnsInfo
  pub verification : VerificationInfo
  pub certificates : List CertificateInfo
  pub security : SecurityInfo
  pub warnings : List Text
  pub errors : List Text

-- Go's zero values.
abbrev pub empty_security_info : SecurityInfo
empty_security_info = record { local_grade = []; score = pos 0; summary = []; findings = [] }
