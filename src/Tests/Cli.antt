-- ===== src/Tests/Cli.antt =====
-- cmd/sslcertcheck/main.go: the commands on a console whose state is that of Tests.Run.
use ssl_certificate_verifier.Base.{ℕ, ◌≡◌, refl, true, List, [], ◌∷◌, Text, codes, none, Outcome}
use ssl_certificate_verifier.Strings.{text_runs}
use ssl_certificate_verifier.X509.{Certificate}
use ssl_certificate_verifier.Types.{Result, Options, empty_options}
use ssl_certificate_verifier.Tls.Version.{tls_version_value}
use ssl_certificate_verifier.Target.{
  url_port, url_path, url_target, parse_url_target, finish_target, parse_target,
}
use ssl_certificate_verifier.Cert.Info.{
  certificates_info, certificates_from, certificate_info, cert_status,
}
use ssl_certificate_verifier.Cert.Sct.{
  embedded_sct_count, count_in_extensions, count_sct_list, count_entries,
}
use ssl_certificate_verifier.Check.Run.{plan, check}
use ssl_certificate_verifier.Render.Trust.{Layouts}
use ssl_certificate_verifier.Kubernetes.{
  first_non_empty, first_non_empty_slice, resolve_kubernetes_preset,
}
use ssl_certificate_verifier.Kubernetes.Config.{
  before_comment, clean_yaml_scalar, scalar, resolve_ca_file, read_lines, parse_kubeconfig,
}
use ssl_certificate_verifier.Kubernetes.Scan.{
  ext, is_cert_file, read_blocks, read_certificates, visit_all, scan_dirs,
  scan_kubernetes_cert_dirs,
}
use ssl_certificate_verifier.Kubernetes.Run.{check_kubernetes}
use ssl_certificate_verifier.Cli.{
  Parsed, parsed, Console, check_command, exit_status, exit_code, known_command, command_of,
  dispatch,
}
use ssl_certificate_verifier.Cli.Check.{
  CheckFlags, check_defaults, is_invalid, check_targets, run_check,
}
use ssl_certificate_verifier.Cli.Check.Status.{Runs}
use ssl_certificate_verifier.Cli.Check.Concluded.{IsConcluded, run_check-IsConcluded}
use ssl_certificate_verifier.Cli.Check.Accepted.{AllAccepted, run_check-AllAccepted}
use ssl_certificate_verifier.Cli.Kube.{KubeFlags, kube_defaults, kubernetes_invalid, run_kubernetes}
use ssl_certificate_verifier.Cli.Kube.Valid.{HasValidReport, run_kubernetes-HasValidReport}
use ssl_certificate_verifier.Cli.Web.{WebFlags, Host, browser_command, run_gui}
use ssl_certificate_verifier.Cli.Program.{System, main}
use ssl_certificate_verifier.Cli.Program.Succeeded.{Succeeded, main-Succeeded}
use ssl_certificate_verifier.Tests.Gui.{service}
use ssl_certificate_verifier.Cli.Dispatch.{IsDispatched, dispatch-IsDispatched}
use ssl_certificate_verifier.Tests.Run.{env}
use ssl_certificate_verifier.Tests.Kubernetes.{
  files, decoders, decoders-Shrinks, decode_base64, urls_read,
}

-- Each write counts as a request.
abbrev console : Console (ℕ × ℕ)
console = record {
  encode = λ payload w. (none, w);
  encode_report = λ report w. (none, w);
  print = λ text w. w;
}

abbrev layouts : Layouts
layouts = record { rfc3339 = λ t. codes "now"; date = λ t. codes "today" }

-- Every flag is as these, and every argument a target.
abbrev quick : Options
quick = record empty_options { skip_dns = true; skip_http = true }

abbrev strict : CheckFlags
strict = record check_defaults { opt = quick; fail_on_invalid = true }

abbrev parse_check : CheckFlags → List Text → Parsed CheckFlags
parse_check flags args = parsed (record flags { opt = quick; fail_on_invalid = true }) args

abbrev targets : List Text
targets = codes "http://a.b/x?q=1" ∷ []

dispatch-IsDispatched_example : IsDispatched (codes "--help") [] (dispatch (codes "--help" ∷ []))
dispatch-IsDispatched_example = dispatch-IsDispatched (codes "--help") []

help_is_a_flag : dispatch (codes "--help" ∷ []) ≡ check_command (codes "--help" ∷ [])
unfolding dispatch command_of known_command text_runs
help_is_a_flag = refl

run_check-IsConcluded_example :
    (o : Outcome (List Result) × (ℕ × ℕ)) × Runs env quick targets (0, 0) o
    × IsConcluded console layouts strict o
        (run_check env console layouts parse_check targets (0, 0))
run_check-IsConcluded_example =
    run_check-IsConcluded env console layouts parse_check targets (0, 0) strict
      (codes "http://a.b/x?q=1") [] refl urls_read

succeeds : exit_status (run_check env console layouts parse_check targets (0, 0)).0 ≡ 0
unfolding exit_status run_check check_targets is_invalid check plan tls_version_value parse_target
    url_port url_path url_target parse_url_target finish_target text_runs
succeeds = refl

run_check-AllAccepted_example : AllAccepted env console layouts strict targets (0, 0)
run_check-AllAccepted_example =
    run_check-AllAccepted env console layouts parse_check targets (0, 0) strict
      (codes "http://a.b/x?q=1") [] refl urls_read refl succeeds

abbrev local : KubeFlags
local = record kube_defaults {
  distro = codes "custom";
  kubeconfig = codes "/k";
  cert_dirs = codes "/d" ∷ [];
  skip_live = true;
  fail_on_invalid = true;
}

abbrev parse_kube : KubeFlags → List Text → Parsed KubeFlags
parse_kube flags args = parsed local args

kube_succeeds :
    exit_status
      (run_kubernetes env files decoders decode_base64 console layouts parse_kube [] (0, 0)).0
    ≡ 0
unfolding exit_status run_kubernetes kubernetes_invalid check_kubernetes resolve_kubernetes_preset
    first_non_empty first_non_empty_slice parse_kubeconfig read_lines resolve_ca_file scalar
    clean_yaml_scalar before_comment scan_kubernetes_cert_dirs scan_dirs visit_all is_cert_file ext
    read_certificates read_blocks certificates_info certificates_from certificate_info
    embedded_sct_count count_in_extensions count_sct_list count_entries cert_status text_runs
kube_succeeds = refl

run_kubernetes-HasValidReport_example :
    HasValidReport env files decoders decode_base64 console layouts local (0, 0)
run_kubernetes-HasValidReport_example =
    run_kubernetes-HasValidReport env files decoders decode_base64 console layouts parse_kube []
      (0, 0) local [] refl decoders-Shrinks urls_read refl kube_succeeds

-- The port is taken, and nothing is started.
abbrev host : Host (ℕ × ℕ)
host = record {
  system = codes "linux";
  start_later = λ after command w. w;
  listen_and_serve = λ address pages w. (codes "address already in use", w);
  print_error = λ text w. w;
}

abbrev parse_web : WebFlags → List Text → Parsed WebFlags
parse_web flags args = parsed flags args

abbrev sys : System (ℕ × ℕ) (Unit {0}) (Unit {0}) (List Certificate)
sys = record {
  env = env;
  files = files;
  decoders = decoders;
  decode_base64 = decode_base64;
  console = console;
  layouts = layouts;
  service = service;
  host = host;
  parse_check = parse_check;
  parse_kube = parse_kube;
  parse_web = parse_web;
}

main_checks : (main sys (codes "check" ∷ targets) (0, 0)).0 ≡ 0
unfolding main dispatch command_of known_command exit_status run_check check_targets is_invalid
    check plan tls_version_value parse_target url_port url_path url_target parse_url_target
    finish_target text_runs
main_checks = refl

main-Succeeded_example : Succeeded sys (0, 0) (dispatch (codes "check" ∷ targets))
main-Succeeded_example =
    main-Succeeded sys (codes "check") targets (0, 0) decoders-Shrinks urls_read main_checks

-- The web interface ends with the error of the server.
main_serves : (main sys (codes "gui" ∷ []) (0, 0)).0 ≡ 1
unfolding main dispatch command_of known_command exit_status exit_code run_gui text_runs
main_serves = refl

opens_page : browser_command (codes "darwin") (codes "u") ≡ codes "open" ∷ codes "u" ∷ []
unfolding browser_command text_runs
opens_page = refl
