-- ===== src/Cli/Program/Succeeded.antt =====
-- What the status of the process says.
use ssl_certificate_verifier.Base.{
  Bool-cases, ◌≡◌, ◌≢◌, refl, ap, sym, ◌∙◌, true, false, List, [], codes, ◌∷◌, Text, panic, inl,
  inr,
}
use ssl_certificate_verifier.Cli.{
  CommandResult, finished, stopped, crashed, failed, Parsed, help, bad, parsed, exit_status,
  exit_code, Command, check_command, kubernetes_command, gui_command, version_command,
  usage_command, dispatch,
}
use ssl_certificate_verifier.Cli.Check
use ssl_certificate_verifier.Cli.Kube
use ssl_certificate_verifier.Cli.Web
use ssl_certificate_verifier.Cli.Check.{CheckFlags, check_defaults, run_check}
use ssl_certificate_verifier.Cli.Check.Accepted.{AllAccepted, run_check-AllAccepted}
use ssl_certificate_verifier.Cli.Kube.{KubeFlags, kube_defaults, run_kubernetes}
use ssl_certificate_verifier.Cli.Kube.Valid.{HasValidReport, run_kubernetes-HasValidReport}
use ssl_certificate_verifier.Cli.Web.{WebFlags, web_defaults, run_gui}
use ssl_certificate_verifier.Cli.Dispatch.{
  IsDispatched, to_check, to_default, to_kubernetes, to_gui, to_version, to_usage,
  dispatch-IsDispatched,
}
use ssl_certificate_verifier.Cli.Program.{System, ended, run_command, main}
use ssl_certificate_verifier.Kubernetes.Scan.Blocks.{Shrinks}

failed_status : (e : Text) → exit_status (stopped (failed e)) ≢ 0
unfolding exit_status exit_code
failed_status e h = cc

module _ {World Conn Socket Pool : Type 0} (sys : System World Conn Socket Pool) where
  -- The ways in which a command succeeds.
  pub data Succeeded (w : World) : Command → Type 0 where
    check_help :
        (args : List Text)
        → sys.parse_check check_defaults args ≡ help
        → Succeeded w (check_command args)
    not_strict :
        (args : List Text) (flags : CheckFlags) (targets : List Text)
        → sys.parse_check check_defaults args ≡ parsed flags targets
        → flags.fail_on_invalid ≡ false
        → Succeeded w (check_command args)
    accepted :
        (args : List Text) (flags : CheckFlags) (target : Text) (targets : List Text)
        → sys.parse_check check_defaults args ≡ parsed flags (target ∷ targets)
        → flags.fail_on_invalid ≡ true
        → AllAccepted sys.env sys.console sys.layouts flags (target ∷ targets) w
        → Succeeded w (check_command args)
    kubernetes_help :
        (args : List Text)
        → sys.parse_kube kube_defaults args ≡ help
        → Succeeded w (kubernetes_command args)
    kubernetes_not_strict :
        (args : List Text) (flags : KubeFlags) (rest : List Text)
        → sys.parse_kube kube_defaults args ≡ parsed flags rest
        → flags.fail_on_invalid ≡ false
        → Succeeded w (kubernetes_command args)
    valid_cluster :
        (args : List Text) (flags : KubeFlags) (rest : List Text)
        → sys.parse_kube kube_defaults args ≡ parsed flags rest
        → flags.fail_on_invalid ≡ true
        → HasValidReport sys.env sys.files sys.decoders sys.decode_base64 sys.console sys.layouts
            flags w
        → Succeeded w (kubernetes_command args)
    web_help :
        (args : List Text) → sys.parse_web web_defaults args ≡ help → Succeeded w (gui_command args)
    version_shown : Succeeded w version_command
    usage_shown : Succeeded w usage_command

  -- The logging of an error does not change the status.
  ended_status : (o : CommandResult × World) → (ended sys o).0 ≡ exit_status o.0
  ended_status (finished, w) = refl
  ended_status (stopped e, w) = refl
  ended_status (crashed, w) = refl

  check-Succeeded :
      (args : List Text) (w : World) (p : Parsed CheckFlags)
      → ((text : Text) → sys.env.syntax.parse_url text ≢ panic)
      → sys.parse_check check_defaults args ≡ p
      → exit_status (run_check sys.env sys.console sys.layouts sys.parse_check args w).0 ≡ 0
      → Succeeded w (check_command args)
  unfolding run_check
  check-Succeeded args w help returns read status = check_help args read
  check-Succeeded args w (bad e) returns read status = absurd (
      failed_status e (
        sym (ap (λ p. exit_status (Check.run_parsed sys.env sys.console sys.layouts p w).0) read)
        ∙ status))
  check-Succeeded args w (parsed flags []) returns read status = absurd (
      failed_status (codes "target is required") (
        sym (ap (λ p. exit_status (Check.run_parsed sys.env sys.console sys.layouts p w).0) read)
        ∙ status))
  check-Succeeded args w (parsed flags (target ∷ targets)) returns read status =
      elim (Bool-cases flags.fail_on_invalid) [
        | inl strict ↦ accepted args flags target targets read strict (
            run_check-AllAccepted sys.env sys.console sys.layouts sys.parse_check args w flags
              target targets read returns strict status)
        | inr lenient ↦ not_strict args flags (target ∷ targets) read lenient
      ]

  kubernetes-Succeeded :
      (args : List Text) (w : World) (p : Parsed KubeFlags)
      → Shrinks sys.decoders
      → ((text : Text) → sys.env.syntax.parse_url text ≢ panic)
      → sys.parse_kube kube_defaults args ≡ p
      → exit_status
          (run_kubernetes sys.env sys.files sys.decoders sys.decode_base64 sys.console sys.layouts
            sys.parse_kube args w).0
        ≡ 0
      → Succeeded w (kubernetes_command args)
  unfolding run_kubernetes
  kubernetes-Succeeded args w help shrinks returns read status = kubernetes_help args read
  kubernetes-Succeeded args w (bad e) shrinks returns read status = absurd (
      failed_status e (
        sym (
          ap
            (λ p.
              exit_status
                (Kube.run_parsed sys.env sys.files sys.decoders sys.decode_base64 sys.console
                  sys.layouts p w).0)
            read)
        ∙ status))
  kubernetes-Succeeded args w (parsed flags rest) shrinks returns read status =
      elim (Bool-cases flags.fail_on_invalid) [
        | inl strict ↦ valid_cluster args flags rest read strict (
            run_kubernetes-HasValidReport sys.env sys.files sys.decoders sys.decode_base64
              sys.console sys.layouts sys.parse_kube args w flags rest read shrinks returns strict
              status)
        | inr lenient ↦ kubernetes_not_strict args flags rest read lenient
      ]

  gui-Succeeded :
      (args : List Text) (w : World) (p : Parsed WebFlags)
      → sys.parse_web web_defaults args ≡ p
      → exit_status (run_gui sys.env sys.service sys.console sys.host sys.parse_web args w).0 ≡ 0
      → Succeeded w (gui_command args)
  unfolding run_gui
  gui-Succeeded args w help read status = web_help args read
  gui-Succeeded args w (bad e) read status = absurd (
      failed_status e (
        sym (
          ap (λ p. exit_status (Web.run_parsed sys.env sys.service sys.console sys.host p w).0)
            read)
        ∙ status))
  gui-Succeeded args w (parsed flags rest) read status = absurd (
      failed_status _ (
        sym (
          ap (λ p. exit_status (Web.run_parsed sys.env sys.service sys.console sys.host p w).0)
            read)
        ∙ status))

  run_command-Succeeded :
      (cmd : Text) (args : List Text) (w : World) (c : Command)
      → Shrinks sys.decoders
      → ((text : Text) → sys.env.syntax.parse_url text ≢ panic)
      → IsDispatched cmd args c
      → (run_command sys c w).0 ≡ 0
      → Succeeded w c
  run_command-Succeeded cmd args w _ shrinks returns (to_check e) status =
      check-Succeeded args w _ returns refl (sym (ended_status _) ∙ status)
  run_command-Succeeded cmd args w _ shrinks returns (to_default e) status =
      check-Succeeded (cmd ∷ args) w _ returns refl (sym (ended_status _) ∙ status)
  run_command-Succeeded cmd args w _ shrinks returns (to_kubernetes e) status =
      kubernetes-Succeeded args w _ shrinks returns refl (sym (ended_status _) ∙ status)
  run_command-Succeeded cmd args w _ shrinks returns (to_gui e) status =
      gui-Succeeded args w _ refl (sym (ended_status _) ∙ status)
  run_command-Succeeded cmd args w _ shrinks returns (to_version e) status = version_shown
  run_command-Succeeded cmd args w _ shrinks returns (to_usage e) status = usage_shown

-- If `main` is given an argument at least and the process exits with status 0, then the command
-- that it has run was asked for help, or is `version` or `help`, or was not asked to fail on what
-- is invalid, or every target of `check` has a report, in order, of plain HTTP or of a connected
-- and verified peer, or the Kubernetes report has no error, an accepted API server and certificates
-- only that were current when the scan of their files started. The web interface never ends so.
-- Decoding a block of PEM shortens the bytes, and the URL parser does not panic.
pub main-Succeeded :
    {World Conn Socket Pool : Type 0} (sys : System World Conn Socket Pool) (cmd : Text)
    (args : List Text) (w : World)
    → Shrinks sys.decoders
    → ((text : Text) → sys.env.syntax.parse_url text ≢ panic)
    → (main sys (cmd ∷ args) w).0 ≡ 0
    → Succeeded sys w (dispatch (cmd ∷ args))
unfolding main
main-Succeeded sys cmd args w shrinks returns status =
    run_command-Succeeded sys cmd args w (dispatch (cmd ∷ args)) shrinks returns
      (dispatch-IsDispatched cmd args) status
