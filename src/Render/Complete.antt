-- ===== src/Render/Complete.antt =====
-- What the report shows.
use mathlib.Core.List.{Memᴰ}
use mathlib.Core.List.Memᴰ.{head, tail}
use ssl_certificate_verifier.Base.{
  ◌⊎◌, inl, inr, codes, str_eq, str_eq_iff, Bool-cases, ◌≡◌, refl, ap, subst, arith, Bool, true,
  false, not, ◌||◌, List, [], ◌∷◌, ◌++◌, map, Text, is_empty,
}
use ssl_certificate_verifier.Strings.{itoa, itoa_ℤ}
use ssl_certificate_verifier.Security.Finding.{blank_dash}
use ssl_certificate_verifier.Types.{Result, SecurityFinding, CertificateInfo}
use ssl_certificate_verifier.Render.Words.{when, titled}
use ssl_certificate_verifier.Render.Network.{dns_lines, tls_lines, http_lines}
use ssl_certificate_verifier.Render.Trust.{
  Layouts, verification_lines, certificates_lines, chains_lines, security_lines, warning_lines,
  error_lines, finding_lines, certificate_lines, lines_of, item,
}
use ssl_certificate_verifier.Render.{head_lines, report_lines}

module _ {ℓ} {A : Type ℓ} where
  in_left : (a : A) (xs ys : List A) → Memᴰ a xs → Memᴰ a (xs ++ ys)
  in_left a [] ys m = elim m [ ]
  in_left a (x ∷ xs) ys (head e) = head e
  in_left a (x ∷ xs) ys (tail m) = tail (in_left a xs ys m)

  in_right : (a : A) (xs ys : List A) → Memᴰ a ys → Memᴰ a (xs ++ ys)
  in_right a [] ys m = m
  in_right a (x ∷ xs) ys m = tail (in_right a xs ys m)

  -- A member of the part at the head of the rest.
  abbrev Within : List A → List A → Type ℓ
  Within xs ys = (a : A) → Memᴰ a xs → Memᴰ a ys

in_map : (s : Text) (xs : List Text) → Memᴰ s xs → Memᴰ (item s) (map item xs)
in_map s [] m = elim m [ ]
in_map s (x ∷ xs) (head e) = head (ap item e)
in_map s (x ∷ xs) (tail m) = tail (in_map s xs m)

in_titled :
    (b : Bool) (title under s : Text) (lines : List Text)
    → b ≡ true
    → Memᴰ s lines
    → Memᴰ s (when b (titled title under lines))
in_titled true title under s lines h m = tail (tail (tail m))
in_titled false title under s lines h m = cc

filled : {A : Type 0} (xs : List A) {a : A} → Memᴰ a xs → not (is_empty xs) ≡ true
filled [] m = elim m [ ]
filled (x ∷ xs) m = refl

or_right : (a : Bool) {b : Bool} → b ≡ true → a || b ≡ true
or_right a h = ground arith

or_left : {a : Bool} (b : Bool) → a ≡ true → a || b ≡ true
or_left b h = ground arith

in_lines_of :
    {A : Type 0} (f : A → List Text) (xs : List A) (a : A) (s : Text)
    → Memᴰ a xs
    → Memᴰ s (f a)
    → Memᴰ s (lines_of f xs)
unfolding lines_of
in_lines_of f [] a s m h = elim m [ ]
in_lines_of f (x ∷ xs) a s (head e) h = in_left s (f x) _ (subst (λ y. Memᴰ s (f y)) e h)
in_lines_of f (x ∷ xs) a s (tail m) h = in_right s (f x) _ (in_lines_of f xs a s m h)

-- The lines that every certificate has.
abbrev lines_on : Layouts → CertificateInfo → List Text
lines_on layouts c =
    (codes "["
      ++ (itoa c.index
          ++ (codes "] " ++ (c.role ++ (codes "  " ++ blank_dash c.subject_common_name)))))
    ∷ (codes "    Subject:   " ++ blank_dash c.subject)
    ∷ (codes "    Issuer:    " ++ blank_dash c.issuer)
    ∷ (codes "    Validity:  "
        ++ ((layouts.date c.not_before ++ (codes " -> " ++ layouts.date c.not_after))
            ++ (codes " ("
                ++ (c.status
                    ++ (codes ", " ++ (itoa_ℤ c.days_remaining ++ codes " days remaining)"))))))
    ∷ (codes "    Serial:    " ++ blank_dash c.serial_number_hex)
    ∷ (codes "    Validation: " ++ blank_dash c.validation_level)
    ∷ (codes "    Key:       "
        ++ (blank_dash c.public_key_algorithm ++ (codes " " ++ itoa c.public_key_size)))
    ∷ (codes "    Key SHA256:" ++ blank_dash c.public_key_sha256)
    ∷ (codes "    Signature: " ++ blank_dash c.signature_algorithm)
    ∷ (codes "    SHA256:    " ++ blank_dash c.fingerprint_sha256)
    ∷ (codes "    SHA1:      " ++ blank_dash c.fingerprint_sha1)
    ∷ []

in_certificate :
    (layouts : Layouts) (c : CertificateInfo) (s : Text)
    → Memᴰ s (lines_on layouts c)
    → Memᴰ s (certificate_lines layouts c)
unfolding certificate_lines
in_certificate layouts c s m = in_left s (lines_on layouts c) _ m

-- The line of a finding.
abbrev line_on : SecurityFinding → Text
line_on f =
    codes "  ["
    ++ (f.status
        ++ (codes "/"
            ++ (f.severity
                ++ (codes "] " ++ (f.title ++ (codes ": " ++ blank_dash f.description))))))

-- A finding has passed, or has its line among its lines.
in_finding : (f : SecurityFinding) → (f.status ≡ codes "pass") ⊎ Memᴰ (line_on f) (finding_lines f)
unfolding finding_lines
in_finding f = elim (Bool-cases (str_eq f.status (codes "pass"))) [
  | inl passed ↦ inl ((str_eq_iff _ _).0 passed)
  | inr shown ↦ inr (rw shown (head refl))
]

-- What a text report shows.
pub record IsShown (layouts : Layouts) (r : Result) (lines : List Text) : Type 0 where
  pub warnings_shown : (w : Text) → Memᴰ w r.warnings → Memᴰ (codes "- " ++ w) lines
  pub errors_shown : (e : Text) → Memᴰ e r.errors → Memᴰ (codes "- " ++ e) lines
  pub verification_shown : (e : Text) → Memᴰ e r.verification.errors → Memᴰ (codes "- " ++ e) lines
  pub certificates_shown :
      (c : CertificateInfo) (s : Text)
      → Memᴰ c r.certificates
      → Memᴰ s (lines_on layouts c)
      → Memᴰ s lines
  pub findings_shown :
      (f : SecurityFinding)
      → Memᴰ f r.security.findings
      → (f.status ≡ codes "pass") ⊎ Memᴰ (line_on f) lines

-- The parts of a report from the certificates on.
abbrev from_certificates : Layouts → Result → List Text
from_certificates layouts r =
    certificates_lines layouts r.certificates
    ++ (chains_lines r.verification.verified_chains
        ++ (security_lines r.security
            ++ (warning_lines r.warnings ++ error_lines r.errors r.verification.errors)))

in_report :
    (layouts : Layouts) (r : Result) (s : Text)
    → Memᴰ s (from_certificates layouts r)
    → Memᴰ s (report_lines layouts r)
unfolding report_lines
in_report layouts r s m = in_right s (head_lines layouts r) _ (
    in_right s (dns_lines r) _ (
      in_right s (tls_lines r.tls) _
        (in_right s (http_lines r.http) _ (in_right s (verification_lines r.verification) _ m))))

module _ (layouts : Layouts) (r : Result) (s : Text) where
  in_errors : Memᴰ s (error_lines r.errors r.verification.errors) → Memᴰ s (report_lines layouts r)
  in_errors m = in_report layouts r s (
      in_right s (certificates_lines layouts r.certificates) _ (
        in_right s (chains_lines r.verification.verified_chains) _
          (in_right s (security_lines r.security) _ (in_right s (warning_lines r.warnings) _ m))))

  in_warnings : Memᴰ s (warning_lines r.warnings) → Memᴰ s (report_lines layouts r)
  in_warnings m = in_report layouts r s (
      in_right s (certificates_lines layouts r.certificates) _ (
        in_right s (chains_lines r.verification.verified_chains) _
          (in_right s (security_lines r.security) _ (in_left s (warning_lines r.warnings) _ m))))

  in_security : Memᴰ s (security_lines r.security) → Memᴰ s (report_lines layouts r)
  in_security m = in_report layouts r s (
      in_right s (certificates_lines layouts r.certificates) _ (
        in_right s (chains_lines r.verification.verified_chains) _
          (in_left s (security_lines r.security) _ m)))

-- The text report has a line for every warning and for every error of the report and of its
-- verification; for every certificate the lines with its role and name, subject, issuer, validity,
-- serial number, level of validation, key, signature and fingerprints; and for every finding that
-- has not passed the line with its status, severity, title and description.
pub report_lines-IsShown :
    (layouts : Layouts) (r : Result) → IsShown layouts r (report_lines layouts r)
unfolding warning_lines error_lines certificates_lines security_lines
report_lines-IsShown layouts r = record {
  warnings_shown = λ w m.
      in_warnings layouts r (item w)
        (in_titled _ _ _ _ _ (filled r.warnings m) (in_map w r.warnings m));
  errors_shown = λ e m. in_errors layouts r (item e) (
      in_titled _ _ _ _ _ (or_left _ (filled r.errors m))
        (in_left (item e) _ _ (in_map e r.errors m)));
  verification_shown = λ e m. in_errors layouts r (item e) (
      in_titled _ _ _ _ _ (or_right (not (is_empty r.errors)) (filled r.verification.errors m))
        (in_right (item e) (map item r.errors) _ (in_map e r.verification.errors m)));
  certificates_shown = λ c s m l. in_report layouts r s (
      in_left s (certificates_lines layouts r.certificates) _ (
        in_titled _ _ _ _ _ (filled r.certificates m) (
          in_lines_of (certificate_lines layouts) r.certificates c s m
            (in_certificate layouts c s l))));
  findings_shown = λ f m. elim (in_finding f) [
    | inl passed ↦ inl passed
    | inr line ↦ inr (
        in_security layouts r (line_on f) (
          in_titled _ _ _ _ _ (filled r.security.findings m)
            (tail (tail (in_lines_of finding_lines r.security.findings f (line_on f) m line)))))
  ];
}
