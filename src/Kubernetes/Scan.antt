-- ===== src/Kubernetes/Scan.antt =====
-- internal/checker/kubernetes.go: `readCertificates`, `isCertFile` and `scanKubernetesCertDirs`.
-- The decoders of PEM and DER are parameters.
pub mod Blocks
pub mod Source
pub mod Current
use ssl_certificate_verifier.Base.{
  ℕ, zero, suc, length, Bool, true, false, not, ◌||◌, ◌&&◌, any, List, [], ◌∷◌, ◌++◌, if◌then◌else◌,
  map, Text, codes, str_eq, is_empty, Option, none, some, ◌⊎◌, inl, inr, Outcome, ok, err, panic,
  ◌>>=◌, ◌==◌,
}
use ssl_certificate_verifier.Strings.{to_lower}
use ssl_certificate_verifier.Types.{Bytes, Instant, CertificateInfo}
use ssl_certificate_verifier.X509.{X509, Certificate}
use ssl_certificate_verifier.Tls.ShortError.{short_error}
use ssl_certificate_verifier.Cert.Info.{certificates_info}
use ssl_certificate_verifier.Kubernetes.{Files, Visit, KubernetesCertificate}

-- What the program reads of a `pem.Block`.
pub record Block : Type 0 where
  pub block_type : Text
  pub bytes : Bytes

-- `pem.Decode` gives the next block and the rest, or no block; `x509.ParseCertificate` an error or
-- a certificate.
pub record Decoders : Type 0 where
  pub decode_pem : Bytes → Option (Block × Bytes)
  pub parse_certificate : Bytes → Text ⊎ Certificate

-- `filepath.Ext`: from the last dot on, if no separator stands behind it.
unfoldable pub ext : (ℕ → Bool) → Text → Text
ext is_separator [] = []
ext is_separator (c ∷ path) =
    let rest = ext is_separator path in
    if not (is_empty rest)
    then rest
    else if c == b'.' && not (any is_separator (c ∷ path))
    then c ∷ path
    else []

unfoldable pub is_cert_file : Files → Text → Bool
is_cert_file files path =
    let extension = to_lower (ext files.is_separator path) in
    str_eq extension (codes ".crt")
    || str_eq extension (codes ".cert")
    || str_eq extension (codes ".cer")
    || str_eq extension (codes ".pem")

abbrev pub added : List Certificate → Text ⊎ Certificate → Outcome (List Certificate)
added certs (inl e) = err e
added certs (inr cert) = ok (certs ++ cert ∷ [])

abbrev pub is_certificate : Block → Bool
is_certificate block = str_eq block.block_type (codes "CERTIFICATE")

-- The certificate of a block is added to those before, and a block of another type is passed over.
abbrev pub add_block : Decoders → Block → List Certificate → Outcome (List Certificate)
add_block dec block certs =
    if not (is_certificate block) then ok certs else added certs (dec.parse_certificate block.bytes)

-- The loop over the blocks, on fuel; without fuel it would go on, and the result is `panic`.
unfoldable pub read_blocks :
    Decoders → ℕ → Option (Block × Bytes) → List Certificate → Outcome (List Certificate)
read_blocks dec fuel none certs = ok certs
read_blocks dec zero (some found) certs = panic
read_blocks dec (suc fuel) (some (block, rest)) certs =
    add_block dec block certs >>= λ certs. read_blocks dec fuel (dec.decode_pem rest) certs

-- Without a certificate among the blocks, the bytes are read as DER.
abbrev pub or_der : Bytes → Text ⊎ Certificate → List Certificate → Outcome (List Certificate)
or_der bytes parsed (c ∷ certs) = ok (c ∷ certs)
or_der bytes (inr cert) [] = ok (cert ∷ [])
or_der bytes (inl e) [] = err (codes "no certificate PEM or DER found")

abbrev pub read_all : Decoders → Text ⊎ Bytes → Outcome (List Certificate)
read_all dec (inl e) = err e
read_all dec (inr bytes) =
    read_blocks dec (length bytes) (dec.decode_pem bytes) []
    >>= or_der bytes (dec.parse_certificate bytes)

unfoldable pub read_certificates : Files → Decoders → Text → Outcome (List Certificate)
read_certificates files dec path = read_all dec (files.read_file path)

-- The certificates and the warnings so far.
abbrev pub Found : Type 0
Found = List KubernetesCertificate × List Text

abbrev warn : Found → Text → Found
warn (out, warnings) text = (out, warnings ++ text ∷ [])

-- `fmt.Sprintf("%s: %s", path, shortError(err))`.
abbrev at_path : Text → Text → Text
at_path path e = path ++ (codes ": " ++ short_error (some e))

abbrev in_dir : Text → Text → Text
in_dir dir text = codes "cert-dir " ++ (dir ++ (codes ": " ++ text))

abbrev pub at_file : Text → CertificateInfo → KubernetesCertificate
at_file path info = record { path = path; certificate = info }

module _ (files : Files) (dec : Decoders) (x : X509) (include_pem : Bool) (now : Instant) where
  abbrev report_file : Text → Found → Outcome (List Certificate) → Outcome Found
  report_file path found (err e) = ok (warn found (at_path path e))
  report_file path found panic = panic
  report_file path (out, warnings) (ok certs) =
      certificates_info x certs include_pem now >>= λ infos.
      ok (out ++ map (at_file path) infos, warnings)

  -- The function that `filepath.WalkDir` calls.
  abbrev visit : Found → Text → Text ⊎ Bool → Outcome Found
  visit found path (inl e) = ok (warn found (at_path path e))
  visit found path (inr dir) =
      if dir || not (is_cert_file files path)
      then ok found
      else report_file path found (read_certificates files dec path)

  unfoldable pub visit_all : Found → List Visit → Outcome Found
  visit_all found [] = ok found
  visit_all found (v ∷ visits) = visit found v.path v.entry >>= λ found. visit_all found visits

  -- The warning for the error of the walk.
  abbrev walk_error : Text → Option Text → Found → Outcome Found
  walk_error dir none found = ok found
  walk_error dir (some e) found = ok (warn found (in_dir dir (short_error (some e))))

  abbrev scan_stat : Found → Text → Text ⊎ Bool → Outcome Found
  scan_stat found dir (inl e) = ok (warn found (in_dir dir (short_error (some e))))
  scan_stat found dir (inr false) = ok (warn found (in_dir dir (codes "not a directory")))
  scan_stat found dir (inr true) =
      visit_all found (files.walk_dir dir).0 >>= walk_error dir (files.walk_dir dir).1

  abbrev scan_dir : Found → Text → Outcome Found
  scan_dir found dir = if is_empty dir then ok found else scan_stat found dir (files.stat dir)

  unfoldable pub scan_dirs : Found → List Text → Outcome Found
  scan_dirs found [] = ok found
  scan_dirs found (dir ∷ dirs) = scan_dir found dir >>= λ found. scan_dirs found dirs

  unfoldable pub scan_kubernetes_cert_dirs : List Text → Outcome Found
  scan_kubernetes_cert_dirs dirs = scan_dirs ([], []) dirs
