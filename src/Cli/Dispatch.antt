-- ===== src/Cli/Dispatch.antt =====
-- Which command `main` runs.
use ssl_certificate_verifier.Base.{
  ◌≡◌, ◌⊎◌, inl, inr, refl, subst, sym, arith, Bool, true, false, not, ◌||◌, any, List, ◌∷◌,
  if◌then◌else◌, Text, codes, str_eq, str_eq_iff, Bool-cases,
}
use ssl_certificate_verifier.Strings.{has_prefix}
use ssl_certificate_verifier.Cli.{
  Command, check_command, kubernetes_command, gui_command, version_command, usage_command,
  known_command, command_of, dispatch,
}

dash_of :
    (cmd name : Text)
    → has_prefix name (codes "-") ≡ true
    → str_eq cmd name ≡ true
    → has_prefix cmd (codes "-") ≡ true
dash_of cmd name dash same =
    subst (λ c. has_prefix c (codes "-") ≡ true) (sym ((str_eq_iff cmd name).0 same)) dash

or_cases : (a b : Bool) → a || not b ≡ true → (a ≡ true) ⊎ (b ≡ false)
or_cases a b h = ground arith

or_parts : (a b : Bool) → a || b ≡ false → (a ≡ false) × (b ≡ false)
or_parts a b h = ground arith

not-false : (b : Bool) → not b ≡ false → b ≡ true
not-false b h = ground arith

-- The first argument is the name of a command, or an argument of `check`.
pub data IsDispatched (cmd : Text) (args : List Text) : Command → Type 0 where
  to_check : cmd ≡ codes "check" → IsDispatched cmd args (check_command args)
  to_default :
      (has_prefix cmd (codes "-") ≡ true) ⊎ (known_command cmd ≡ false)
      → IsDispatched cmd args (check_command (cmd ∷ args))
  to_kubernetes :
      (cmd ≡ codes "kube") ⊎ (cmd ≡ codes "kubernetes") ⊎ (cmd ≡ codes "k8s")
      → IsDispatched cmd args (kubernetes_command args)
  to_gui : cmd ≡ codes "gui" → IsDispatched cmd args (gui_command args)
  to_version : cmd ≡ codes "version" → IsDispatched cmd args version_command
  to_usage : cmd ≡ codes "help" → IsDispatched cmd args usage_command

check_first : (args : List Text) → command_of (codes "check") args ≡ check_command args
unfolding command_of codes str_eq
check_first args = refl

defaulted :
    (cmd : Text) (args : List Text)
    → has_prefix cmd (codes "-") || not (known_command cmd) ≡ true
    → IsDispatched cmd args (dispatch (cmd ∷ args))
unfolding dispatch
defaulted cmd args h = rw (h, check_first (cmd ∷ args)) (to_default (or_cases _ _ h))

if_split :
    (P : Command → Type 0) (b : Bool) (x y : Command)
    → (b ≡ true → P x)
    → (b ≡ false → P y)
    → P (if b then x else y)
if_split P true x y h k = h refl
if_split P false x y h k = k refl

is_kubernetes :
    (cmd : Text)
    → str_eq cmd (codes "kube") || (str_eq cmd (codes "kubernetes") || str_eq cmd (codes "k8s"))
      ≡ true
    → (cmd ≡ codes "kube") ⊎ (cmd ≡ codes "kubernetes") ⊎ (cmd ≡ codes "k8s")
is_kubernetes cmd h = ground (
  arith,
  str_eq_iff cmd (codes "kube"),
  str_eq_iff cmd (codes "kubernetes"),
  str_eq_iff cmd (codes "k8s"),
)

is_help :
    (cmd : Text)
    → has_prefix cmd (codes "-") ≡ false
    → str_eq cmd (codes "help") || (str_eq cmd (codes "--help") || str_eq cmd (codes "-h")) ≡ true
    → cmd ≡ codes "help"
unfolding has_prefix codes
is_help cmd no_dash h =
    (str_eq_iff cmd (codes "help")).0
      (ground (arith, dash_of cmd (codes "--help") refl, dash_of cmd (codes "-h") refl))

not_known :
    (cmd : Text)
    → known_command cmd ≡ true
    → str_eq cmd (codes "check") ≡ false
    → str_eq cmd (codes "kube") || (str_eq cmd (codes "kubernetes") || str_eq cmd (codes "k8s"))
      ≡ false
    → str_eq cmd (codes "gui") ≡ false
    → str_eq cmd (codes "version") ≡ false
    → str_eq cmd (codes "help") || (str_eq cmd (codes "--help") || str_eq cmd (codes "-h")) ≡ false
    → ⊥
unfolding known_command any
not_known cmd known check kube gui version help = ground arith

named :
    (cmd : Text) (args : List Text)
    → has_prefix cmd (codes "-") || not (known_command cmd) ≡ false
    → IsDispatched cmd args (command_of cmd args)
unfolding command_of
named cmd args h =
    if_split (IsDispatched cmd args) (str_eq cmd (codes "check")) _ _
      (λ e. to_check ((str_eq_iff cmd _).0 e))
      λ no_check.
        if_split (IsDispatched cmd args) _ _ _ (λ e. to_kubernetes (is_kubernetes cmd e))
          λ no_kube.
            if_split (IsDispatched cmd args) _ _ _ (λ e. to_gui ((str_eq_iff cmd _).0 e))
              λ no_gui.
                if_split (IsDispatched cmd args) _ _ _ (λ e. to_version ((str_eq_iff cmd _).0 e))
                  λ no_version.
                    if_split (IsDispatched cmd args) _ _ _
                      (λ e. to_usage (is_help cmd (or_parts _ _ h).0 e))
                      λ no_help. absurd (
                        not_known cmd (not-false _ (or_parts _ _ h).1) no_check no_kube no_gui
                          no_version no_help)

dispatch_named :
    (cmd : Text) (args : List Text)
    → has_prefix cmd (codes "-") || not (known_command cmd) ≡ false
    → IsDispatched cmd args (dispatch (cmd ∷ args))
unfolding dispatch
dispatch_named cmd args h = rw h (named cmd args h)

-- For every list of arguments but the empty one, `main` runs a command: `check` on all of them if
-- the first starts with a dash or is no name of a command, and else the command of that name on the
-- rest. The usage is shown for `help` alone, not for `--help` or `-h`, and no argument leads to the
-- error of an unknown command.
pub dispatch-IsDispatched :
    (cmd : Text) (args : List Text) → IsDispatched cmd args (dispatch (cmd ∷ args))
dispatch-IsDispatched cmd args =
    elim (Bool-cases (has_prefix cmd (codes "-") || not (known_command cmd))) [
      | inl default ↦ defaulted cmd args default
      | inr name ↦ dispatch_named cmd args name
    ]
