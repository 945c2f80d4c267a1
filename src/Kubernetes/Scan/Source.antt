-- ===== src/Kubernetes/Scan/Source.antt =====
-- Where the certificates of `scanKubernetesCertDirs` come from.
use mathlib.Core.List.{Memᴰ}
use mathlib.Core.List.Memᴰ.{head, tail}
use ssl_certificate_verifier.Base.{
  ◌≡◌, refl, subst, arith, Bool, true, false, not, List, [], ◌∷◌, map, Text, is_empty, Option, none,
  some, ◌⊎◌, inl, inr, Outcome, ok, err, panic, All, All-append, Returns, Returns->>=, Returns-if,
  Safely,
}
use ssl_certificate_verifier.Types.{Instant, CertificateInfo}
use ssl_certificate_verifier.X509.{X509, Certificate}
use ssl_certificate_verifier.Cert.Info.{certificates_info}
use ssl_certificate_verifier.Cert.Info.Laws.{ReportsFrom, certificates_info-Returns}
use ssl_certificate_verifier.Kubernetes.{Files, Visit, KubernetesCertificate}
use ssl_certificate_verifier.Kubernetes.Scan.{
  Decoders, Found, at_file, is_cert_file, read_certificates, report_file, visit, visit_all,
  walk_error, scan_stat, scan_dir, scan_dirs, scan_kubernetes_cert_dirs,
}
use ssl_certificate_verifier.Kubernetes.Scan.Blocks.{Shrinks, read_certificates-Safely}

not-false : {b : Bool} → not b ≡ false → b ≡ true
not-false h = ground arith

module _ (files : Files) (dec : Decoders) (x : X509) (include_pem : Bool) (now : Instant) where
  -- The certificate is a report on one that was read from a certificate file, which the walk of one
  -- of the directories has met.
  pub record IsFrom (dirs : List Text) (found : KubernetesCertificate) : Type 0 where
    pub dir : Text
    pub certs : List Certificate
    pub infos : List CertificateInfo
    pub is_named : Memᴰ dir dirs
    pub is_directory : files.stat dir ≡ inr true
    pub is_met : Memᴰ (record { path = found.path; entry = inr false }) (files.walk_dir dir).0
    pub is_cert : is_cert_file files found.path ≡ true
    pub is_read : read_certificates files dec found.path ≡ ok certs
    pub is_reported : ReportsFrom x now 0 certs infos
    pub is_listed : Memᴰ found.certificate infos

  -- All certificates found are from the directories.
  abbrev pub AllFrom : List Text → Found → Type 0
  AllFrom dirs found = All (IsFrom dirs) found.0

  module _ (dirs : List Text) (dir : Text) (named : Memᴰ dir dirs)
      (stat : files.stat dir ≡ inr true) where
    listed-IsFrom :
        (path : Text) (certs : List Certificate) (infos some_infos : List CertificateInfo)
        → Memᴰ (record { path = path; entry = inr false }) (files.walk_dir dir).0
        → is_cert_file files path ≡ true
        → read_certificates files dec path ≡ ok certs
        → ReportsFrom x now 0 certs infos
        → ((info : CertificateInfo) → Memᴰ info some_infos → Memᴰ info infos)
        → All (IsFrom dirs) (map (at_file path) some_infos)
    listed-IsFrom path certs infos [] met cert read reports within = tt
    listed-IsFrom path certs infos (info ∷ rest) met cert read reports within = (
      record {
        dir = dir;
        certs = certs;
        infos = infos;
        is_named = named;
        is_directory = stat;
        is_met = met;
        is_cert = cert;
        is_read = read;
        is_reported = reports;
        is_listed = within info (head refl);
      },
      listed-IsFrom path certs infos rest met cert read reports λ i m. within i (tail m),
    )

    report_file-AllFrom :
        (path : Text) (found : Found) (o : Outcome (List Certificate))
        → Memᴰ (record { path = path; entry = inr false }) (files.walk_dir dir).0
        → is_cert_file files path ≡ true
        → read_certificates files dec path ≡ o
        → Safely (λ certs. Unit {0}) o
        → AllFrom dirs found
        → Returns (AllFrom dirs) (report_file files dec x include_pem now path found o)
    report_file-AllFrom path found (err e) met cert read safe h = h
    report_file-AllFrom path found panic met cert read safe h = safe
    report_file-AllFrom path found (ok certs) met cert read safe h =
        Returns->>= (ReportsFrom x now 0 certs) (AllFrom dirs)
          (certificates_info x certs include_pem now) _
          (certificates_info-Returns x certs include_pem now)
          λ infos reports.
            All-append (IsFrom dirs) found.0 (map (at_file path) infos) h
              (listed-IsFrom path certs infos infos met cert read reports λ i m. m)

    visit-AllFrom :
        (v : Visit) (found : Found)
        → Shrinks dec
        → Memᴰ v (files.walk_dir dir).0
        → AllFrom dirs found
        → Returns (AllFrom dirs) (visit files dec x include_pem now found v.path v.entry)
    visit-AllFrom v found shrinks met h = at v.entry refl
      where
        at :
            (entry : Text ⊎ Bool)
            → v.entry ≡ entry
            → Returns (AllFrom dirs) (visit files dec x include_pem now found v.path entry)
        at (inl e) is_entry = h
        at (inr true) is_entry = h
        at (inr false) is_entry =
            Returns-if (AllFrom dirs) (not (is_cert_file files v.path)) _ _ (λ _. h)
              λ cert.
                report_file-AllFrom v.path found _
                  (subst
                    (λ entry. Memᴰ (record { path = v.path; entry = entry }) (files.walk_dir dir).0)
                    is_entry met)
                  (not-false cert) refl (read_certificates-Safely files dec v.path shrinks) h

    visit_all-AllFrom :
        (visits : List Visit) (found : Found)
        → Shrinks dec
        → ((v : Visit) → Memᴰ v visits → Memᴰ v (files.walk_dir dir).0)
        → AllFrom dirs found
        → Returns (AllFrom dirs) (visit_all files dec x include_pem now found visits)
    unfolding visit_all
    visit_all-AllFrom [] found shrinks within h = h
    visit_all-AllFrom (v ∷ visits) found shrinks within h =
        Returns->>= (AllFrom dirs) (AllFrom dirs)
          (visit files dec x include_pem now found v.path v.entry) _
          (visit-AllFrom v found shrinks (within v (head refl)) h)
          λ after after_h. visit_all-AllFrom visits after shrinks (λ u m. within u (tail m)) after_h

    walk_error-AllFrom :
        (e : Option Text) (found : Found)
        → AllFrom dirs found
        → Returns (AllFrom dirs) (walk_error files dec x include_pem now dir e found)
    walk_error-AllFrom none found h = h
    walk_error-AllFrom (some e) found h = h

  scan_dir-AllFrom :
      (dirs : List Text) (dir : Text) (found : Found)
      → Shrinks dec
      → Memᴰ dir dirs
      → AllFrom dirs found
      → Returns (AllFrom dirs) (scan_dir files dec x include_pem now found dir)
  scan_dir-AllFrom dirs dir found shrinks named h =
      Returns-if (AllFrom dirs) (is_empty dir) _ _ (λ _. h) (λ _. at (files.stat dir) refl)
    where
      at :
          (o : Text ⊎ Bool)
          → files.stat dir ≡ o
          → Returns (AllFrom dirs) (scan_stat files dec x include_pem now found dir o)
      at (inl e) stat = h
      at (inr false) stat = h
      at (inr true) stat =
          Returns->>= (AllFrom dirs) (AllFrom dirs)
            (visit_all files dec x include_pem now found (files.walk_dir dir).0) _
            (visit_all-AllFrom dirs dir named stat (files.walk_dir dir).0 found shrinks (λ v m. m)
              h)
            (walk_error-AllFrom dirs dir named stat (files.walk_dir dir).1)

  scan_dirs-AllFrom :
      (dirs rest : List Text) (found : Found)
      → Shrinks dec
      → ((dir : Text) → Memᴰ dir rest → Memᴰ dir dirs)
      → AllFrom dirs found
      → Returns (AllFrom dirs) (scan_dirs files dec x include_pem now found rest)
  unfolding scan_dirs
  scan_dirs-AllFrom dirs [] found shrinks within h = h
  scan_dirs-AllFrom dirs (dir ∷ rest) found shrinks within h =
      Returns->>= (AllFrom dirs) (AllFrom dirs) (scan_dir files dec x include_pem now found dir) _
        (scan_dir-AllFrom dirs dir found shrinks (within dir (head refl)) h)
        λ after after_h.
          scan_dirs-AllFrom dirs rest after shrinks (λ d m. within d (tail m)) after_h

-- If decoding a block shortens the bytes, `scanKubernetesCertDirs` returns for every list of
-- directories, whatever of the files cannot be read, and each certificate that it lists is a report
-- on one that `readCertificates` has read from a file with the extension of a certificate, which
-- the walk of one of the directories has met.
pub scan_kubernetes_cert_dirs-AllFrom :
    (files : Files) (dec : Decoders) (x : X509) (include_pem : Bool) (now : Instant)
    (dirs : List Text)
    → Shrinks dec
    → Returns
        (AllFrom files dec x include_pem now dirs)
        (scan_kubernetes_cert_dirs files dec x include_pem now dirs)
unfolding scan_kubernetes_cert_dirs
scan_kubernetes_cert_dirs-AllFrom files dec x include_pem now dirs shrinks =
    scan_dirs-AllFrom files dec x include_pem now dirs dirs ([], []) shrinks (λ d m. m) tt
