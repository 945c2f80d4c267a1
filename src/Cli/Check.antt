-- ===== src/Cli/Check.antt =====
-- cmd/sslcertcheck/main.go: `runCheck`.
pub mod Status
pub mod Accepted
pub mod Concluded
use ssl_certificate_verifier.Base.{
  Bool, true, false, not, ◌&&◌, ◌||◌, List, [], ◌∷◌, ◌++◌, if◌then◌else◌, Text, codes, str_eq,
  is_empty, Option, none, some, Outcome, ok, err, panic,
}
use ssl_certificate_verifier.Base.Int.{pos}
use ssl_certificate_verifier.Strings.{to_lower, quote}
use ssl_certificate_verifier.Types.{Options, Result, empty_options}
use ssl_certificate_verifier.Check.Run.{Environment, check}
use ssl_certificate_verifier.Render.Trust.{Layouts}
use ssl_certificate_verifier.Render.{render_text}
use ssl_certificate_verifier.Cli.{
  CommandError, failed, invalid_exit, CommandResult, finished, stopped, crashed, Parsed, help, bad,
  parsed, Payload, one, many, Console,
}

pub record CheckFlags : Type 0 where
  pub opt : Options
  pub format : Text
  pub fail_on_invalid : Bool

-- The values of the flags that are not given.
abbrev pub check_defaults : CheckFlags
check_defaults = record {
  opt = record empty_options { timeout = pos 10000000000 };
  format = codes "text";
  fail_on_invalid = false;
}

-- A TLS target that is not connected, or not verified.
unfoldable pub is_invalid : Result → Bool
is_invalid r = r.tls.attempted && (not r.tls.connected || not r.verification.verified)

abbrev pub payload : List Result → Payload
payload [] = many []
payload (r ∷ []) = one r
payload (r ∷ s ∷ results) = many (r ∷ s ∷ results)

abbrev pub unsupported_format : Text → CommandError
unsupported_format format = failed (codes "unsupported format " ++ quote format)

module _ {World Conn Socket Pool : Type 0} (env : Environment World Conn Socket Pool)
    (console : Console World) (layouts : Layouts) where
  abbrev pub added :
      Result → Outcome (List Result × Bool) × World → Outcome (List Result × Bool) × World
  added r (ok (results, any_invalid), w) = (ok (r ∷ results, is_invalid r || any_invalid), w)
  added r (err e, w) = (err e, w)
  added r (panic, w) = (panic, w)

  -- The loop over the targets: the reports and whether one is invalid, or the first error.
  abbrev pub with_report :
      Outcome Result × World
      → (World → Outcome (List Result × Bool) × World)
      → Outcome (List Result × Bool) × World
  with_report (err e, w) rest = (err e, w)
  with_report (panic, w) rest = (panic, w)
  with_report (ok r, w) rest = added r (rest w)

  unfoldable pub check_targets : Options → List Text → World → Outcome (List Result × Bool) × World
  check_targets opt [] w = (ok ([], false), w)
  check_targets opt (target ∷ targets) w =
      with_report (check env target opt w) λ w. check_targets opt targets w

  -- The text of each report, with a blank line between two.
  unfoldable pub print_reports : List Result → World → World
  print_reports [] w = w
  print_reports (r ∷ []) w = console.print (render_text layouts (some r)) w
  print_reports (r ∷ s ∷ results) w =
      print_reports (s ∷ results)
        (console.print (b'\n' ∷ []) (console.print (render_text layouts (some r)) w))

  abbrev pub encoded : CommandResult → Option Text × World → CommandResult × World
  encoded result (some e, w) = (stopped (failed e), w)
  encoded result (none, w) = (result, w)

  -- The reports in the format, and the result if they could be written.
  abbrev pub write_reports : Text → List Result → CommandResult → World → CommandResult × World
  write_reports format results result w =
      if str_eq (to_lower format) (codes "json")
      then encoded result (console.encode (payload results) w)
      else if str_eq (to_lower format) (codes "text") || is_empty (to_lower format)
      then (result, print_reports results w)
      else (stopped (unsupported_format format), w)

  abbrev pub verdict : Bool → CommandResult
  verdict invalid = if invalid then stopped invalid_exit else finished

  abbrev pub checked : CheckFlags → Outcome (List Result × Bool) × World → CommandResult × World
  checked flags (ok (results, any_invalid), w) =
      write_reports flags.format results (verdict (flags.fail_on_invalid && any_invalid)) w
  checked flags (err e, w) = (stopped (failed e), w)
  checked flags (panic, w) = (crashed, w)

  abbrev pub run_parsed : Parsed CheckFlags → World → CommandResult × World
  run_parsed help w = (finished, w)
  run_parsed (bad e) w = (stopped (failed e), w)
  run_parsed (parsed flags []) w = (stopped (failed (codes "target is required")), w)
  run_parsed (parsed flags (target ∷ targets)) w =
      checked flags (check_targets flags.opt (target ∷ targets) w)

  unfoldable pub run_check :
      (CheckFlags → List Text → Parsed CheckFlags) → List Text → World → CommandResult × World
  run_check parse args w = run_parsed (parse check_defaults args) w
