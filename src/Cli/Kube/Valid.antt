-- ===== src/Cli/Kube/Valid.antt =====
-- What a successful `runKubernetes` says of the cluster.
use ssl_certificate_verifier.Base.{
  inl, inr, ◌≡◌, ◌≢◌, refl, sym, ap, ◌∙◌, arith, Bool, true, false, not, ◌&&◌, ◌||◌, any,
  if◌then◌else◌, List, [], ◌∷◌, Text, codes, str_eq, str_eq_iff, is_empty, Option, none, some, ◌⊎◌,
  Outcome, ok, err, panic, All, Returns,
}
use ssl_certificate_verifier.Strings.{to_lower}
use ssl_certificate_verifier.Types.{Result, Bytes}
use ssl_certificate_verifier.Check.Run.{Environment}
use ssl_certificate_verifier.Render.Trust.{Layouts}
use ssl_certificate_verifier.Kubernetes.{Files, KubernetesReport, KubernetesCertificate}
use ssl_certificate_verifier.Kubernetes.Scan.{Decoders}
use ssl_certificate_verifier.Kubernetes.Scan.Blocks.{Shrinks}
use ssl_certificate_verifier.Kubernetes.Scan.Source.{IsFrom}
use ssl_certificate_verifier.Kubernetes.Scan.Current.{IsCurrent, IsFrom-AllCurrent}
use ssl_certificate_verifier.Kubernetes.Run.{check_kubernetes}
use ssl_certificate_verifier.Kubernetes.Config.{KubeconfigInfo}
use ssl_certificate_verifier.Types.{Instant}
use ssl_certificate_verifier.Kubernetes.Run.Report.{
  api_done, IsKubernetesReport, check_kubernetes-IsKubernetesReport,
}
use ssl_certificate_verifier.Kubernetes.Render.{render_kubernetes_text}
use ssl_certificate_verifier.Cli.{
  CommandResult, finished, stopped, invalid_exit, Parsed, parsed, Console, exit_status,
}
use ssl_certificate_verifier.Cli.Check.{unsupported_format}
use ssl_certificate_verifier.Cli.Check.Accepted.{
  IsAccepted, is_invalid-IsAccepted, exit_status-finished,
}
use ssl_certificate_verifier.Cli.Kube.{
  KubeFlags, kube_defaults, kube_options, api_invalid, kubernetes_invalid, encoded, write_report,
  reported, run_parsed, run_kubernetes,
}

abbrev ApiAccepted : Option Result → Type 0
ApiAccepted none = Unit
ApiAccepted (some r) = IsAccepted r

-- The report has no error, a check of the API server that is accepted, if there is one, and valid
-- certificates only.
pub record IsValidReport (r : KubernetesReport) : Type 0 where
  pub no_errors : r.errors ≡ []
  pub api_accepted : ApiAccepted r.api_server_check
  pub all_valid : All (λ cert. cert.certificate.status ≡ codes "valid") r.certificates

api_invalid-ApiAccepted : (o : Option Result) → api_invalid o ≡ false → ApiAccepted o
api_invalid-ApiAccepted none h = tt
api_invalid-ApiAccepted (some r) h = is_invalid-IsAccepted r h

nil_of : (errors : List Text) → not (is_empty errors) ≡ false → errors ≡ []
nil_of [] h = refl
nil_of (e ∷ errors) h = cc

or_false : (a b : Bool) → a || b ≡ false → (a ≡ false) × (b ≡ false)
or_false a b h = ground arith

statuses_valid :
    (certs : List KubernetesCertificate)
    → any (λ cert. not (str_eq cert.certificate.status (codes "valid"))) certs ≡ false
    → All (λ cert. cert.certificate.status ≡ codes "valid") certs
unfolding any
statuses_valid [] h = tt
statuses_valid (cert ∷ certs) h =
    let parts = or_false (not (str_eq cert.certificate.status (codes "valid"))) _ h in
    (
      (str_eq_iff cert.certificate.status (codes "valid")).0 (not-false _ parts.0),
      statuses_valid certs parts.1,
    )
  where
    not-false : (b : Bool) → not b ≡ false → b ≡ true
    not-false b h = ground arith

kubernetes_invalid-IsValidReport :
    (r : KubernetesReport) → kubernetes_invalid (some r) ≡ false → IsValidReport r
unfolding kubernetes_invalid
kubernetes_invalid-IsValidReport r h =
    let first = or_false _ _ h in
    let second = or_false _ _ first.1 in
    record {
      no_errors = nil_of r.errors first.0;
      api_accepted = api_invalid-ApiAccepted r.api_server_check second.0;
      all_valid = statuses_valid r.certificates second.1;
    }

module _ {World Conn Socket Pool : Type 0} (env : Environment World Conn Socket Pool)
    (files : Files) (dec : Decoders) (decode_base64 : Text → Text ⊎ Bytes) (console : Console World)
    (layouts : Layouts) where
  encoded-finished :
      (result : CommandResult) (o : Option Text × World)
      → (encoded env files dec decode_base64 console layouts result o).0 ≡ finished
      → result ≡ finished
  encoded-finished result (some e, w) h = cc
  encoded-finished result (none, w) h = h

  write_report-finished :
      (format : Text) (r : KubernetesReport) (result : CommandResult) (w : World)
      → (write_report env files dec decode_base64 console layouts format r result w).0 ≡ finished
      → result ≡ finished
  write_report-finished format r result w h =
      at (str_eq (to_lower format) (codes "json"))
        (str_eq (to_lower format) (codes "text") || is_empty (to_lower format)) h
    where
      at :
          (json plain : Bool)
          → (if json
              then encoded env files dec decode_base64 console layouts result
                  (console.encode_report r w)
              else if plain
              then (result, console.print (render_kubernetes_text layouts (some r)) w)
              else (stopped (unsupported_format format), w)).0
            ≡ finished
          → result ≡ finished
      at true plain h = encoded-finished result _ h
      at false true h = h
      at false false h = cc

  invalid_result :
      (b : Bool)
      → ◌≡◌ {A = CommandResult} (if b then stopped invalid_exit else finished) finished
      → b ≡ false
  invalid_result true h = cc
  invalid_result false h = refl

  abbrev scan_time : KubeFlags → KubeconfigInfo → World → Instant
  scan_time flags info w =
      env.network.now (api_done env files dec decode_base64 (kube_options flags) info w)

  -- There was no scan, or every certificate that it has found is current at the time behind the
  -- check of the API server, at which the scan starts.
  abbrev AllCurrent : KubeFlags → KubeconfigInfo → World → KubernetesReport → Type 0
  AllCurrent flags info w r =
      (flags.skip_cert_scan ≡ true)
      ⊎ All (IsCurrent files dec (scan_time flags info w)) r.certificates

  report-AllCurrent :
      (flags : KubeFlags) (w : World) (r : KubernetesReport)
      (is_report : IsKubernetesReport env files dec decode_base64 (kube_options flags) w r)
      → IsValidReport r
      → AllCurrent flags is_report.info w r
  report-AllCurrent flags w r is_report valid = at is_report.certificates_are
    where
      at :
          (flags.skip_cert_scan ≡ true) × (r.certificates ≡ [])
            ⊎ All
                (IsFrom files dec env.x509 flags.include_pem
                  (scan_time flags is_report.info w)
                  r.cert_dirs)
                r.certificates
          → AllCurrent flags is_report.info w r
      at (inl (skip, none_found)) = inl skip
      at (inr from) = inr (
          IsFrom-AllCurrent files dec env.x509 flags.include_pem (scan_time flags is_report.info w)
            r.cert_dirs r.certificates from valid.all_valid)

  -- There is a report, of the kind that `CheckKubernetes` gives, and it is valid.
  pub record HasValidReport (flags : KubeFlags) (w : World) : Type 0 where
    pub report : KubernetesReport
    pub is_given :
        (check_kubernetes env files dec decode_base64 (kube_options flags) w).0 ≡ ok report
    pub is_report : IsKubernetesReport env files dec decode_base64 (kube_options flags) w report
    pub is_valid : IsValidReport report
    pub is_current : AllCurrent flags is_report.info w report

  reported-HasValidReport :
      (flags : KubeFlags) (w : World) (o : Outcome KubernetesReport × World)
      → (check_kubernetes env files dec decode_base64 (kube_options flags) w).0 ≡ o.0
      → Returns (IsKubernetesReport env files dec decode_base64 (kube_options flags) w) o.0
      → flags.fail_on_invalid ≡ true
      → (reported env files dec decode_base64 console layouts flags o).0 ≡ finished
      → HasValidReport flags w
  reported-HasValidReport flags w (ok r, after) e is_report failing h =
      let valid = kubernetes_invalid-IsValidReport r (
        ap (λ b. b && kubernetes_invalid (some r)) (sym failing)
        ∙ invalid_result _ (write_report-finished flags.format r _ after h)) in
      record {
        report = r;
        is_given = e;
        is_report = is_report;
        is_valid = valid;
        is_current = report-AllCurrent flags w r is_report valid;
      }
  reported-HasValidReport flags w (err message, after) e is_report failing h = absurd is_report
  reported-HasValidReport flags w (panic, after) e is_report failing h = absurd is_report

-- If `runKubernetes` was asked to fail on invalid certificates, and the process exits with status
-- 0, `CheckKubernetes` has a report without errors: the API server, if it was checked over TLS, was
-- connected and verified, and every certificate found in the directories, if they were scanned, was
-- read from its file, has begun at the time behind the check of the API server, when the scan
-- starts, and is not over. The flags could be read, decoding a block of PEM shortens the bytes, and
-- the URL parser does not panic.
pub run_kubernetes-HasValidReport :
    {World Conn Socket Pool : Type 0} (env : Environment World Conn Socket Pool) (files : Files)
    (dec : Decoders) (decode_base64 : Text → Text ⊎ Bytes) (console : Console World)
    (layouts : Layouts) (parse : KubeFlags → List Text → Parsed KubeFlags) (args : List Text)
    (w : World) (flags : KubeFlags) (rest : List Text)
    → parse kube_defaults args ≡ parsed flags rest
    → Shrinks dec
    → ((text : Text) → env.syntax.parse_url text ≢ panic)
    → flags.fail_on_invalid ≡ true
    → exit_status (run_kubernetes env files dec decode_base64 console layouts parse args w).0 ≡ 0
    → HasValidReport env files dec decode_base64 console layouts flags w
unfolding run_kubernetes
run_kubernetes-HasValidReport env files dec decode_base64 console layouts parse args w flags rest
      read shrinks returns failing status =
    reported-HasValidReport env files dec decode_base64 console layouts flags w _ refl
      (check_kubernetes-IsKubernetesReport env files dec decode_base64 (kube_options flags) w
        shrinks returns)
      failing
      (ap (λ p. (run_parsed env files dec decode_base64 console layouts p w).0) (sym read)
        ∙ exit_status-finished _ status)
