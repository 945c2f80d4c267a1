-- ===== src/Render/Trust.antt =====
-- internal/checker/render.go: the parts on certificates, findings, warnings and errors. The layouts
-- of a time are parameters.
use ssl_certificate_verifier.Base.{
  not, ◌||◌, List, [], ◌∷◌, ◌++◌, map, if◌then◌else◌, Text, codes, str_eq, is_empty,
}
use ssl_certificate_verifier.Strings.{itoa, itoa_ℤ, join}
use ssl_certificate_verifier.Types.{
  VerificationInfo, VerifiedChain, ChainCertificate, CertificateInfo, SecurityInfo, SecurityFinding,
  Instant,
}
use ssl_certificate_verifier.Security.Finding.{blank_dash}
use ssl_certificate_verifier.Render.Words.{yes_no, pass_fail, hostname_status, when, titled}
use ssl_certificate_verifier.Render.Network.{list_line}

-- `Format` with `time.RFC3339` and with `2006-01-02`.
pub record Layouts : Type 0 where
  pub rfc3339 : Instant → Text
  pub date : Instant → Text

unfoldable pub verification_lines : VerificationInfo → List Text
verification_lines v = when v.checked (
    titled (codes "Verification") (codes "------------") (
      (codes "Overall:     " ++ pass_fail v.verified)
      ∷ (codes "Chain:       " ++ pass_fail v.chain_verified)
      ∷ (codes "Hostname:    " ++ hostname_status v)
      ∷ (codes "Root trust:  " ++ pass_fail v.root_trusted)
      ∷ (codes "Complete:    " ++ yes_no v.chain_complete)
      ∷ (codes "Expired:     " ++ yes_no v.expired)
      ∷ (codes "Not before:  " ++ yes_no v.not_yet_valid)
      ∷ (codes "Self-signed: " ++ yes_no v.self_signed_leaf)
      ∷ (if v.uses_custom_ca
          then codes "CA bundle:   system + custom"
          else codes "CA bundle:   system")
      ∷ []))

-- A line for a list that is not empty, without a limit.
abbrev joined_line : Text → List Text → List Text
joined_line label values = when (not (is_empty values)) ((label ++ join values (codes ", ")) ∷ [])

abbrev pub validity : Layouts → CertificateInfo → Text
validity layouts c = layouts.date c.not_before ++ (codes " -> " ++ layouts.date c.not_after)

unfoldable pub certificate_lines : Layouts → CertificateInfo → List Text
certificate_lines layouts c =
    (codes "["
      ++ (itoa c.index
          ++ (codes "] " ++ (c.role ++ (codes "  " ++ blank_dash c.subject_common_name)))))
    ∷ (codes "    Subject:   " ++ blank_dash c.subject)
    ∷ (codes "    Issuer:    " ++ blank_dash c.issuer)
    ∷ (codes "    Validity:  "
        ++ (validity layouts c
            ++ (codes " ("
                ++ (c.status
                    ++ (codes ", " ++ (itoa_ℤ c.days_remaining ++ codes " days remaining)"))))))
    ∷ (codes "    Serial:    " ++ blank_dash c.serial_number_hex)
    ∷ (codes "    Validation: " ++ blank_dash c.validation_level)
    ∷ (codes "    Key:       "
        ++ (blank_dash c.public_key_algorithm ++ (codes " " ++ itoa c.public_key_size)))
    ∷ (codes "    Key SHA256:" ++ blank_dash c.public_key_sha256)
    ∷ (codes "    Signature: " ++ blank_dash c.signature_algorithm)
    ∷ (codes "    SHA256:    " ++ blank_dash c.fingerprint_sha256)
    ∷ (codes "    SHA1:      " ++ blank_dash c.fingerprint_sha1)
    ∷ (list_line (codes "    DNS SANs:  ") 8 c.dns_names
        ++ (list_line (codes "    IP SANs:   ") 8 c.ip_addresses
            ++ (joined_line (codes "    Key usage: ") c.key_usage
                ++ (joined_line (codes "    Ext usage: ") c.ext_key_usage
                    ++ (list_line (codes "    Policies:  ") 5 c.certificate_policies
                        ++ (list_line (codes "    OCSP:      ") 3 c.ocsp_servers
                            ++ list_line (codes "    CRL:       ") 3 c.crl_distribution_points))))))

-- The lines of each element in turn.
unfoldable pub lines_of {ℓ} : {A : Type ℓ} → (A → List Text) → List A → List Text
lines_of f [] = []
lines_of f (a ∷ xs) = f a ++ lines_of f xs

unfoldable pub certificates_lines : Layouts → List CertificateInfo → List Text
certificates_lines layouts certs = when (not (is_empty certs)) (
    titled (codes "Server-sent certificates") (codes "------------------------")
      (lines_of (certificate_lines layouts) certs))

abbrev chain_name : ChainCertificate → Text
chain_name cert = if is_empty cert.common_name then cert.subject else cert.common_name

unfoldable pub chain_line : VerifiedChain → Text
chain_line chain =
    codes "["
    ++ (itoa chain.chain ++ (codes "] " ++ join (map chain_name chain.certificates) (codes " -> ")))

unfoldable pub chains_lines : List VerifiedChain → List Text
chains_lines chains = when (not (is_empty chains)) (
    titled (codes "Verified chain candidates") (codes "-------------------------")
      (map chain_line chains))

-- Passed findings have no line.
unfoldable pub finding_lines : SecurityFinding → List Text
finding_lines f =
    if str_eq f.status (codes "pass")
    then []
    else (codes "  ["
        ++ (f.status
            ++ (codes "/"
                ++ (f.severity
                    ++ (codes "] " ++ (f.title ++ (codes ": " ++ blank_dash f.description)))))))
      ∷ []

unfoldable pub security_lines : SecurityInfo → List Text
security_lines s = when (not (is_empty s.findings)) (
    titled (codes "Local security summary") (codes "----------------------") (
      (codes "Grade:       "
        ++ (blank_dash s.local_grade ++ (codes " (" ++ (itoa_ℤ s.score ++ codes "/100)"))))
      ∷ (codes "Summary:     " ++ blank_dash s.summary)
      ∷ lines_of finding_lines s.findings))

abbrev pub item : Text → Text
item s = codes "- " ++ s

unfoldable pub warning_lines : List Text → List Text
warning_lines warnings =
    when (not (is_empty warnings))
      (titled (codes "Warnings") (codes "--------") (map item warnings))

-- The errors of the report, and those of the verification behind them.
unfoldable pub error_lines : List Text → List Text → List Text
error_lines errors more =
    when (not (is_empty errors) || not (is_empty more))
      (titled (codes "Errors") (codes "------") (map item errors ++ map item more))
