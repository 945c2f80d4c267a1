-- ===== src/Cert/Info/Laws.antt =====
-- What `CertificatesInfo` says of each certificate.
use ssl_certificate_verifier.Base.{
  ℕ, ◌+◌, ◌≡◌, refl, Bool, true, false, not, ◌&&◌, List, [], ◌∷◌, ◌==◌, if◌then◌else◌, codes,
  str_eq, some, Returns, Returns->>=, Returns-if, Returns-mono,
}
use ssl_certificate_verifier.Base.Int.{ltb_ℤ}
use ssl_certificate_verifier.Strings.{text_runs}
use ssl_certificate_verifier.Types.{CertificateInfo, Instant}
use ssl_certificate_verifier.X509.{X509, Certificate, Extension}
use ssl_certificate_verifier.Cert.Sct.{
  count_sct_list, count_in_extensions, embedded_sct_count, sct_oid,
}
use ssl_certificate_verifier.Cert.Sct.RoundTrip.{count_sct_list-Returns}
use ssl_certificate_verifier.Cert.Info.{
  is_self_signed, cert_status, cert_role, certificate_info, certificates_from, certificates_info,
}

count_in_extensions-Returns :
    (exts : List Extension) → Returns (λ _. Unit) (count_in_extensions exts)
unfolding count_in_extensions
count_in_extensions-Returns [] = tt
count_in_extensions-Returns (ext ∷ exts) =
    Returns-if (λ _. Unit) (str_eq ext.id sct_oid) (count_sct_list ext.value)
      (count_in_extensions exts)
      (λ _.
        Returns-mono _ _ (count_sct_list ext.value) (λ _ _. tt) (count_sct_list-Returns ext.value))
      (λ _. count_in_extensions-Returns exts)

embedded_sct_count-Returns :
    (cert : Certificate) → Returns (λ _. Unit) (embedded_sct_count (some cert))
unfolding embedded_sct_count
embedded_sct_count-Returns cert = count_in_extensions-Returns cert.extensions

leaf_test :
    (first self_signed : Bool)
    → str_eq
        (if first then codes "leaf" else if self_signed then codes "root" else codes "intermediate")
        (codes "leaf")
      ≡ first
unfolding text_runs
leaf_test true b = refl
leaf_test false true = refl
leaf_test false false = refl

cert_role-leaf : (i : ℕ) (b : Bool) → str_eq (cert_role i b) (codes "leaf") ≡ (i == 0)
unfolding cert_role
cert_role-leaf i b = leaf_test (i == 0) b

valid_test :
    (early late : Bool)
    → str_eq
        (if early then codes "not_yet_valid" else if late then codes "expired" else codes "valid")
        (codes "valid")
      ≡ (not early && not late)
unfolding text_runs
valid_test true b = refl
valid_test false true = refl
valid_test false false = refl

cert_status-valid :
    (cert : Certificate) (now : Instant)
    → str_eq (cert_status cert now) (codes "valid")
      ≡ (not (ltb_ℤ now cert.not_before) && not (ltb_ℤ cert.not_after now))
unfolding cert_status
cert_status-valid cert now = valid_test (ltb_ℤ now cert.not_before) (ltb_ℤ cert.not_after now)

-- What the report on the certificate at index `i` says of it.
pub record Reports (x : X509) (now : Instant) (i : ℕ) (cert : Certificate) (info : CertificateInfo)
    : Type 0 where
  pub index_is : info.index ≡ i
  pub leaf_is : str_eq info.role (codes "leaf") ≡ (i == 0)
  pub valid_is :
      str_eq info.status (codes "valid")
      ≡ (not (ltb_ℤ now cert.not_before) && not (ltb_ℤ cert.not_after now))
  pub self_signed_is : info.is_self_signed ≡ is_self_signed x (some cert)
  pub common_name_is : info.subject_common_name ≡ cert.subject.common_name
  pub names_are : info.dns_names ≡ cert.dns_names
  pub expiry_is : info.not_after ≡ cert.not_after

-- One report for each certificate, in order, with indexes from `i` on.
abbrev pub ReportsFrom : X509 → Instant → ℕ → List Certificate → List CertificateInfo → Type 0
ReportsFrom x now i [] [] = Unit
ReportsFrom x now i [] (info ∷ infos) = ⊥
ReportsFrom x now i (cert ∷ certs) [] = ⊥
ReportsFrom x now i (cert ∷ certs) (info ∷ infos) =
    Reports x now i cert info × ReportsFrom x now (i + 1) certs infos

certificate_info-Returns :
    (x : X509) (include_pem : Bool) (now : Instant) (i : ℕ) (cert : Certificate)
    → Returns (Reports x now i cert) (certificate_info x include_pem now i cert)
unfolding certificate_info
certificate_info-Returns x include_pem now i cert =
    Returns->>= (λ _. Unit) (Reports x now i cert) (embedded_sct_count (some cert)) _
      (embedded_sct_count-Returns cert)
      λ count _. record {
        index_is = refl;
        leaf_is = cert_role-leaf i (is_self_signed x (some cert));
        valid_is = cert_status-valid cert now;
        self_signed_is = refl;
        common_name_is = refl;
        names_are = refl;
        expiry_is = refl;
      }

certificates_from-Returns :
    (x : X509) (include_pem : Bool) (now : Instant) (i : ℕ) (certs : List Certificate)
    → Returns (ReportsFrom x now i certs) (certificates_from x include_pem now i certs)
unfolding certificates_from
certificates_from-Returns x include_pem now i [] = tt
certificates_from-Returns x include_pem now i (cert ∷ certs) =
    Returns->>= (Reports x now i cert) (ReportsFrom x now i (cert ∷ certs))
      (certificate_info x include_pem now i cert) _
      (certificate_info-Returns x include_pem now i cert)
      λ info first.
        Returns->>= (ReportsFrom x now (i + 1) certs) (ReportsFrom x now i (cert ∷ certs))
          (certificates_from x include_pem now (i + 1) certs) _
          (certificates_from-Returns x include_pem now (i + 1) certs) λ infos rest. (first, rest)

-- For any certificates `CertificatesInfo` returns one report for each, in order. A report has the
-- position of its certificate, the role `leaf` at the first position only, the status `valid` just
-- if the time is neither before `NotBefore` nor after `NotAfter`, the result of `IsSelfSigned`, and
-- the certificate's common name, DNS names and `NotAfter`.
pub certificates_info-Returns :
    (x : X509) (certs : List Certificate) (include_pem : Bool) (now : Instant)
    → Returns (ReportsFrom x now 0 certs) (certificates_info x certs include_pem now)
unfolding certificates_info
certificates_info-Returns x certs include_pem now =
    certificates_from-Returns x include_pem now 0 certs
