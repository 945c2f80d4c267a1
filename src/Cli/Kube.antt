-- ===== src/Cli/Kube.antt =====
-- cmd/sslcertcheck/main.go: `runKubernetes` and `kubernetesInvalid`.
pub mod Valid
use ssl_certificate_verifier.Base.{
  Bool, true, false, not, ◌&&◌, ◌||◌, any, List, [], ◌∷◌, if◌then◌else◌, Text, codes, str_eq,
  is_empty, Option, none, some, ◌⊎◌, Outcome, ok, err, panic,
}
use ssl_certificate_verifier.Base.Int.{pos}
use ssl_certificate_verifier.Strings.{to_lower}
use ssl_certificate_verifier.Types.{Result, Bytes, Duration, empty_options}
use ssl_certificate_verifier.Check.Run.{Environment}
use ssl_certificate_verifier.Render.Trust.{Layouts}
use ssl_certificate_verifier.Kubernetes.{Files, KubernetesOptions, KubernetesReport}
use ssl_certificate_verifier.Kubernetes.Scan.{Decoders}
use ssl_certificate_verifier.Kubernetes.Run.{check_kubernetes}
use ssl_certificate_verifier.Kubernetes.Render.{render_kubernetes_text}
use ssl_certificate_verifier.Cli.{
  CommandResult, finished, stopped, crashed, failed, invalid_exit, Parsed, help, bad, parsed,
  Console,
}
use ssl_certificate_verifier.Cli.Check.{is_invalid, unsupported_format}

pub record KubeFlags : Type 0 where
  pub format : Text
  pub distro : Text
  pub kubeconfig : Text
  pub cert_dirs : List Text
  pub timeout : Duration
  pub include_pem : Bool
  pub skip_live : Bool
  pub skip_cert_scan : Bool
  pub fail_on_invalid : Bool

-- The values of the flags that are not given.
abbrev pub kube_defaults : KubeFlags
kube_defaults = record {
  format = codes "text";
  distro = codes "auto";
  kubeconfig = [];
  cert_dirs = [];
  timeout = pos 10000000000;
  include_pem = false;
  skip_live = false;
  skip_cert_scan = false;
  fail_on_invalid = false;
}

abbrev pub kube_options : KubeFlags → KubernetesOptions
kube_options flags = record {
  distro = flags.distro;
  kubeconfig = flags.kubeconfig;
  cert_dirs = flags.cert_dirs;
  timeout = flags.timeout;
  include_pem = flags.include_pem;
  skip_live = flags.skip_live;
  skip_cert_scan = flags.skip_cert_scan;
  check_options = empty_options;
}

abbrev pub api_invalid : Option Result → Bool
api_invalid none = false
api_invalid (some r) = is_invalid r

unfoldable pub kubernetes_invalid : Option KubernetesReport → Bool
kubernetes_invalid none = true
kubernetes_invalid (some report) =
    not (is_empty report.errors)
    || (api_invalid report.api_server_check
        || any (λ cert. not (str_eq cert.certificate.status (codes "valid"))) report.certificates)

module _ {World Conn Socket Pool : Type 0} (env : Environment World Conn Socket Pool)
    (files : Files) (dec : Decoders) (decode_base64 : Text → Text ⊎ Bytes) (console : Console World)
    (layouts : Layouts) where
  abbrev pub encoded : CommandResult → Option Text × World → CommandResult × World
  encoded result (some e, w) = (stopped (failed e), w)
  encoded result (none, w) = (result, w)

  abbrev pub write_report : Text → KubernetesReport → CommandResult → World → CommandResult × World
  write_report format report result w =
      if str_eq (to_lower format) (codes "json")
      then encoded result (console.encode_report report w)
      else if str_eq (to_lower format) (codes "text") || is_empty (to_lower format)
      then (result, console.print (render_kubernetes_text layouts (some report)) w)
      else (stopped (unsupported_format format), w)

  abbrev pub reported : KubeFlags → Outcome KubernetesReport × World → CommandResult × World
  reported flags (ok report, w) =
      write_report flags.format report
        (if flags.fail_on_invalid && kubernetes_invalid (some report)
          then stopped invalid_exit
          else finished)
        w
  reported flags (err e, w) = (stopped (failed e), w)
  reported flags (panic, w) = (crashed, w)

  abbrev pub run_parsed : Parsed KubeFlags → World → CommandResult × World
  run_parsed help w = (finished, w)
  run_parsed (bad e) w = (stopped (failed e), w)
  run_parsed (parsed flags args) w =
      reported flags (check_kubernetes env files dec decode_base64 (kube_options flags) w)

  unfoldable pub run_kubernetes :
      (KubeFlags → List Text → Parsed KubeFlags) → List Text → World → CommandResult × World
  run_kubernetes parse args w = run_parsed (parse kube_defaults args) w
