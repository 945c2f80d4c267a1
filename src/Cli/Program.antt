-- ===== src/Cli/Program.antt =====
-- cmd/sslcertcheck/main.go: `main` and `usage`.
pub mod Succeeded
use ssl_certificate_verifier.Base.{ℕ, List, [], ◌∷◌, ◌++◌, Text, codes, ◌⊎◌}
use ssl_certificate_verifier.Strings.{quote}
use ssl_certificate_verifier.Types.{Bytes}
use ssl_certificate_verifier.Check.Run.{Environment}
use ssl_certificate_verifier.Render.Trust.{Layouts}
use ssl_certificate_verifier.Kubernetes.{Files}
use ssl_certificate_verifier.Kubernetes.Scan.{Decoders}
use ssl_certificate_verifier.Gui.{Service}
use ssl_certificate_verifier.Cli.{
  CommandError, CommandResult, finished, stopped, crashed, failed, invalid_exit, Parsed, Console,
  exit_status, Command, no_arguments, check_command, kubernetes_command, gui_command,
  version_command, usage_command, unknown_command, dispatch,
}
use ssl_certificate_verifier.Cli.Check.{CheckFlags, run_check}
use ssl_certificate_verifier.Cli.Kube.{KubeFlags, run_kubernetes}
use ssl_certificate_verifier.Cli.Web.{WebFlags, Host, run_gui}

-- All that the commands call.
pub record System (World Conn Socket Pool : Type 0) : Type 0 where
  pub env : Environment World Conn Socket Pool
  pub files : Files
  pub decoders : Decoders
  pub decode_base64 : Text → Text ⊎ Bytes
  pub console : Console World
  pub layouts : Layouts
  pub service : Service World
  pub host : Host World
  pub parse_check : CheckFlags → List Text → Parsed CheckFlags
  pub parse_kube : KubeFlags → List Text → Parsed KubeFlags
  pub parse_web : WebFlags → List Text → Parsed WebFlags

abbrev version : Text
version = codes "0.1.0"

abbrev line : Text → Text
line text = text ++ (b'\n' ∷ [])

-- The text of an error.
abbrev error_text : CommandError → Text
error_text (failed e) = e
error_text invalid_exit = codes "one or more TLS targets failed verification"

-- The lines of the usage behind its title.
abbrev usage_lines : List Text
usage_lines =
    []
    ∷ codes "Usage:"
    ∷ codes "  sslcertcheck check [flags] <target> [target...]"
    ∷ codes "  sslcertcheck kube [flags]"
    ∷ codes "  sslcertcheck gui [flags]"
    ∷ codes "  sslcertcheck version"
    ∷ []
    ∷ codes "Targets:"
    ∷ codes "  example.com"
    ∷ codes "  example.com:8443"
    ∷ codes "  192.168.1.20"
    ∷ codes "  10.0.0.5:9443"
    ∷ codes "  https://intranet.local:9443/health"
    ∷ codes "  http://router.local:8080"
    ∷ []
    ∷ codes "Examples:"
    ∷ codes "  sslcertcheck check example.com"
    ∷ codes "  sslcertcheck check --format json --servername app.internal 10.0.0.5:443"
    ∷ codes "  sslcertcheck check --ca-file ./private-root-ca.pem https://portal.internal:8443"
    ∷ codes "  sslcertcheck check --tls-min 1.2 --fail-on-invalid example.com"
    ∷ codes "  sslcertcheck kube --distro k3s"
    ∷ codes "  sslcertcheck kube --distro rke2 --format json"
    ∷ codes "  sslcertcheck gui --open --listen 127.0.0.1:8088"
    ∷ []
    ∷ codes
        "Use \"sslcertcheck check -h\", \"sslcertcheck kube -h\" or \"sslcertcheck gui -h\" for command flags."
    ∷ []

abbrev lines_text : List Text → Text
lines_text [] = []
lines_text (text ∷ texts) = line text ++ lines_text texts

abbrev usage_text : Text
usage_text = line (codes "SSL Certificate Verifier " ++ version) ++ lines_text usage_lines

module _ {World Conn Socket Pool : Type 0} (sys : System World Conn Socket Pool) where
  -- An error is logged; the status of the process.
  abbrev ended : CommandResult × World → ℕ × World
  ended (finished, w) = (exit_status finished, w)
  ended (stopped e, w) =
      (exit_status (stopped e), sys.host.print_error (line (codes "error: " ++ error_text e)) w)
  ended (crashed, w) = (exit_status crashed, w)

  abbrev run_command : Command → World → ℕ × World
  run_command no_arguments w = (1, sys.host.print_error usage_text w)
  run_command (check_command args) w =
      ended (run_check sys.env sys.console sys.layouts sys.parse_check args w)
  run_command (kubernetes_command args) w = ended (
      run_kubernetes sys.env sys.files sys.decoders sys.decode_base64 sys.console sys.layouts
        sys.parse_kube args w)
  run_command (gui_command args) w =
      ended (run_gui sys.env sys.service sys.console sys.host sys.parse_web args w)
  run_command version_command w = (0, sys.console.print (line (codes "sslcertcheck " ++ version)) w)
  run_command usage_command w = (0, sys.host.print_error usage_text w)
  run_command (unknown_command cmd) w =
      ended (
        stopped (failed (codes "unknown command " ++ quote cmd)),
        sys.host.print_error usage_text w,
      )

  -- The arguments are those behind the name of the program.
  unfoldable pub main : List Text → World → ℕ × World
  main args w = run_command (dispatch args) w
