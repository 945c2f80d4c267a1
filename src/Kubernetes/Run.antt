-- ===== src/Kubernetes/Run.antt =====
-- internal/checker/kubernetes.go: `CheckKubernetes`, over the environment of `Check`.
pub mod Report
use ssl_certificate_verifier.Base.{
  Bool, true, false, not, ◌&&◌, List, [], ◌∷◌, ◌++◌, if◌then◌else◌, Text, codes, is_empty, Option,
  none, some, ◌⊎◌, inl, inr, Outcome, ok, err, panic,
}
use ssl_certificate_verifier.Types.{Options, Result, Bytes}
use ssl_certificate_verifier.Tls.Names.{normalize_timeout}
use ssl_certificate_verifier.Tls.ShortError.{short_error}
use ssl_certificate_verifier.Check.Run.{Environment, check}
use ssl_certificate_verifier.Kubernetes.{
  Files, KubernetesOptions, KubernetesPreset, KubernetesReport, first_non_empty,
  first_non_empty_slice, resolve_kubernetes_preset,
}
use ssl_certificate_verifier.Kubernetes.Config.{KubeconfigInfo, no_info, parse_kubeconfig}
use ssl_certificate_verifier.Kubernetes.Scan.{Decoders, Found, scan_kubernetes_cert_dirs}

-- The report before the kubeconfig is read.
abbrev pub initial_report : KubernetesOptions → KubernetesPreset × List Text → KubernetesReport
initial_report opt (preset, warnings) = record {
  distro = preset.distro;
  kubeconfig = first_non_empty opt.kubeconfig preset.kubeconfig;
  api_server = [];
  cert_dirs = first_non_empty_slice opt.cert_dirs preset.cert_dirs;
  api_server_ca = [];
  api_server_check = none;
  certificates = [];
  warnings = warnings;
  errors = [];
}

abbrev pub warn : KubernetesReport → Text → KubernetesReport
warn r text = record r { warnings = r.warnings ++ text ∷ [] }

-- What is known of the API server, and the report.
abbrev pub configured :
    KubernetesReport → Outcome KubeconfigInfo → Outcome (KubeconfigInfo × KubernetesReport)
configured r (ok info) =
    ok (info, record r { api_server = info.server; api_server_ca = info.ca_file })
configured r (err e) = ok (no_info, warn r (codes "kubeconfig: " ++ short_error (some e)))
configured r panic = panic

abbrev pub live_options : KubernetesOptions → KubeconfigInfo → Options
live_options opt info = record opt.check_options {
  timeout = normalize_timeout opt.timeout;
  include_pem = opt.include_pem;
  ca_file = info.ca_file;
  ca_bundle_pem = info.ca_data_pem;
}

abbrev pub api_checked : KubernetesReport → Outcome Result → Outcome KubernetesReport
api_checked r (ok result) = ok (record r { api_server_check = some result })
api_checked r (err e) =
    ok (record r { errors = r.errors ++ (codes "api-server: " ++ short_error (some e)) ∷ [] })
api_checked r panic = panic

abbrev pub no_server_warning : Bool → KubernetesReport → KubernetesReport
no_server_warning skip_live r =
    if not skip_live && is_empty r.api_server
    then warn r (codes "api-server: no server field found in kubeconfig")
    else r

abbrev pub scanned : KubernetesReport → Outcome Found → Outcome KubernetesReport
scanned r (ok (certs, warnings)) =
    ok (record r { certificates = certs; warnings = r.warnings ++ warnings })
scanned r (err e) = err e
scanned r panic = panic

module _ {World Conn Socket Pool : Type 0} (env : Environment World Conn Socket Pool)
    (files : Files) (dec : Decoders) (decode_base64 : Text → Text ⊎ Bytes)
    (opt : KubernetesOptions) where
  abbrev pub config_step : KubernetesReport → Outcome (KubeconfigInfo × KubernetesReport)
  config_step r =
      if not (is_empty r.kubeconfig)
      then configured r (parse_kubeconfig files decode_base64 r.kubeconfig)
      else ok (no_info, r)

  abbrev pub live_step :
      KubeconfigInfo → KubernetesReport → World → Outcome KubernetesReport × World
  live_step info r w =
      let checked = check env r.api_server (live_options opt info) w in
      if not opt.skip_live && not (is_empty r.api_server)
      then (api_checked r checked.0, checked.1)
      else (ok r, w)

  abbrev pub scan_step : KubernetesReport → World → Outcome KubernetesReport × World
  scan_step r w =
      if not opt.skip_cert_scan
      then (
        scanned r (
            scan_kubernetes_cert_dirs files dec env.x509 opt.include_pem (env.network.now w)
              r.cert_dirs),
        w,
      )
      else (ok r, w)

  abbrev pub after_live : Outcome KubernetesReport × World → Outcome KubernetesReport × World
  after_live (ok r, w) = scan_step (no_server_warning opt.skip_live r) w
  after_live (err e, w) = (err e, w)
  after_live (panic, w) = (panic, w)

  abbrev pub after_config :
      Outcome (KubeconfigInfo × KubernetesReport) → World → Outcome KubernetesReport × World
  after_config (ok (info, r)) w = after_live (live_step info r w)
  after_config (err e) w = (err e, w)
  after_config panic w = (panic, w)

  unfoldable pub check_kubernetes : World → Outcome KubernetesReport × World
  check_kubernetes w =
      after_config (config_step (initial_report opt (resolve_kubernetes_preset files opt))) w
