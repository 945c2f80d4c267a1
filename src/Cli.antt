-- ===== src/Cli.antt =====
-- cmd/sslcertcheck/main.go: the commands. The package flag, the encoder of JSON, the console and
-- the web server are parameters, over the type of states of the world that the environment of
-- `Check` has.
pub mod Check
pub mod Dispatch
pub mod Kube
pub mod Program
pub mod Web
use ssl_certificate_verifier.Base.{
  ℕ, Bool, true, false, not, ◌||◌, any, List, [], ◌∷◌, ◌++◌, if◌then◌else◌, Text, codes, str_eq,
  Option, none, some,
}
use ssl_certificate_verifier.Strings.{has_prefix, join, trim_space}
use ssl_certificate_verifier.Types.{Result}
use ssl_certificate_verifier.Kubernetes.{KubernetesReport}
use ssl_certificate_verifier.Base.{is_empty}

-- An error of a command; `invalid_exit` is `invalidExit{}`.
pub data CommandError : Type 0 where
  failed : Text → CommandError
  invalid_exit : CommandError

-- `FlagSet.Parse`: help was asked for, an error, or the flags and the arguments behind them.
pub data Parsed (Flags : Type 0) : Type 0 where
  help : Parsed Flags
  bad : Text → Parsed Flags
  parsed : Flags → List Text → Parsed Flags

-- The value that is written as JSON: one report, or a list of them.
pub data Payload : Type 0 where
  one : Result → Payload
  many : List Result → Payload

-- `Encode` writes, and gives an error or none; `fmt.Print` writes.
pub record Console (World : Type 0) : Type 0 where
  pub encode : Payload → World → Option Text × World
  pub encode_report : KubernetesReport → World → Option Text × World
  pub print : Text → World → World

unfoldable pub exit_code : CommandError → ℕ
exit_code (failed e) = 1
exit_code invalid_exit = 2

-- How a command ends: without an error, with one, or by a panic.
pub data CommandResult : Type 0 where
  finished : CommandResult
  stopped : CommandError → CommandResult
  crashed : CommandResult

-- The status of the process; that of a panic is 2.
unfoldable pub exit_status : CommandResult → ℕ
exit_status finished = 0
exit_status (stopped e) = exit_code e
exit_status crashed = 2

abbrev commands : List Text
commands =
    codes "check"
    ∷ codes "kube"
    ∷ codes "kubernetes"
    ∷ codes "k8s"
    ∷ codes "gui"
    ∷ codes "version"
    ∷ codes "help"
    ∷ codes "--help"
    ∷ codes "-h"
    ∷ []

unfoldable pub known_command : Text → Bool
known_command cmd = any (λ name. str_eq cmd name) commands

-- What `main` runs, with the arguments of a command.
pub data Command : Type 0 where
  no_arguments : Command
  check_command : List Text → Command
  kubernetes_command : List Text → Command
  gui_command : List Text → Command
  version_command : Command
  usage_command : Command
  unknown_command : Text → Command

-- The `switch` of `main`.
unfoldable pub command_of : Text → List Text → Command
command_of cmd args =
    if str_eq cmd (codes "check")
    then check_command args
    else if str_eq cmd (codes "kube")
        || (str_eq cmd (codes "kubernetes") || str_eq cmd (codes "k8s"))
    then kubernetes_command args
    else if str_eq cmd (codes "gui")
    then gui_command args
    else if str_eq cmd (codes "version")
    then version_command
    else if str_eq cmd (codes "help") || (str_eq cmd (codes "--help") || str_eq cmd (codes "-h"))
    then usage_command
    else unknown_command cmd

-- The arguments are those behind the name of the program.
unfoldable pub dispatch : List Text → Command
dispatch [] = no_arguments
dispatch (cmd ∷ args) =
    if has_prefix cmd (codes "-") || not (known_command cmd)
    then command_of (codes "check") (cmd ∷ args)
    else command_of cmd args

-- The methods of `stringListFlag`.
unfoldable pub flag_string : List Text → Text
flag_string values = join values (codes ",")

unfoldable pub flag_set : List Text → Text → List Text
flag_set values value = if is_empty (trim_space value) then values else values ++ value ∷ []
