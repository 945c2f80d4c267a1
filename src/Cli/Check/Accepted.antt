-- ===== src/Cli/Check/Accepted.antt =====
-- What a successful `runCheck` says of the reports.
use ssl_certificate_verifier.Base.{
  ◌≡◌, ◌≢◌, refl, sym, ap, ◌∙◌, arith, Bool, true, false, ◌&&◌, ◌||◌, any, if◌then◌else◌, List, [],
  ◌∷◌, Text, codes, str_eq, is_empty, Option, none, some, ◌⊎◌, Outcome, ok, err, panic, All,
}
use ssl_certificate_verifier.Strings.{to_lower}
use ssl_certificate_verifier.Types.{Result}
use ssl_certificate_verifier.Check.Run.{Environment}
use ssl_certificate_verifier.Render.Trust.{Layouts}
use ssl_certificate_verifier.Cli.{
  failed, CommandResult, finished, stopped, crashed, Parsed, parsed, Console, exit_code,
  exit_status, invalid_exit,
}
use ssl_certificate_verifier.Cli.Check.{
  CheckFlags, check_defaults, is_invalid, encoded, payload, print_reports, unsupported_format,
  write_reports, verdict, run_check,
}
use ssl_certificate_verifier.Cli.Check.Status.{Runs, concluded, run_check-concluded}

-- A report without TLS, or of a target that was connected and verified.
abbrev pub IsAccepted : Result → Type 0
IsAccepted r =
    (r.tls.attempted ≡ false) ⊎ (r.tls.connected ≡ true) × (r.verification.verified ≡ true)

pub is_invalid-IsAccepted : (r : Result) → is_invalid r ≡ false → IsAccepted r
unfolding is_invalid
is_invalid-IsAccepted r h = ground arith

any-IsAccepted : (results : List Result) → any is_invalid results ≡ false → All IsAccepted results
unfolding any
any-IsAccepted [] h = tt
any-IsAccepted (r ∷ results) h =
    let parts = or_false (is_invalid r) _ h in
    (is_invalid-IsAccepted r parts.0, any-IsAccepted results parts.1)
  where
    or_false : (a b : Bool) → a || b ≡ false → (a ≡ false) × (b ≡ false)
    or_false a b h = ground arith

module _ {World Conn Socket Pool : Type 0} (env : Environment World Conn Socket Pool)
    (console : Console World) (layouts : Layouts) where
  encoded-finished :
      (result : CommandResult) (o : Option Text × World)
      → (encoded env console layouts result o).0 ≡ finished
      → result ≡ finished
  encoded-finished result (some e, w) h = cc
  encoded-finished result (none, w) h = h

  -- Only reports that could be written end without an error.
  write_reports-finished :
      (format : Text) (results : List Result) (result : CommandResult) (w : World)
      → (write_reports env console layouts format results result w).0 ≡ finished
      → result ≡ finished
  write_reports-finished format results result w h =
      at (str_eq (to_lower format) (codes "json"))
        (str_eq (to_lower format) (codes "text") || is_empty (to_lower format)) h
    where
      at :
          (json plain : Bool)
          → (if json
              then encoded env console layouts result (console.encode (payload results) w)
              else if plain
              then (result, print_reports env console layouts results w)
              else (stopped (unsupported_format format), w)).0
            ≡ finished
          → result ≡ finished
      at true plain h = encoded-finished result _ h
      at false true h = h
      at false false h = cc

  verdict-finished : (b : Bool) → verdict env console layouts b ≡ finished → b ≡ false
  verdict-finished true h = cc
  verdict-finished false h = refl

  -- Every target has a report that is accepted.
  abbrev pub AllAccepted : CheckFlags → List Text → World → Type 0
  AllAccepted flags targets w =
      (results : List Result) × (after : World) × Runs env flags.opt targets w (ok results, after)
      × All IsAccepted results

  concluded-AllAccepted :
      (flags : CheckFlags) (targets : List Text) (w : World) (o : Outcome (List Result) × World)
      → flags.fail_on_invalid ≡ true
      → Runs env flags.opt targets w o
      → (concluded env console layouts flags o).0 ≡ finished
      → AllAccepted flags targets w
  concluded-AllAccepted flags targets w (ok results, after) failing runs h = (
    results,
    after,
    runs,
    any-IsAccepted results (
        ap (λ b. b && any is_invalid results) (sym failing)
        ∙ verdict-finished _ (write_reports-finished flags.format results _ after h)),
  )
  concluded-AllAccepted flags targets w (err e, after) failing runs h = cc
  concluded-AllAccepted flags targets w (panic, after) failing runs h = cc

pub exit_status-finished : (r : CommandResult) → exit_status r ≡ 0 → r ≡ finished
unfolding exit_status exit_code
exit_status-finished finished h = refl
exit_status-finished (stopped (failed e)) h = cc
exit_status-finished (stopped invalid_exit) h = cc
exit_status-finished crashed h = cc

-- If `runCheck` was asked to fail on invalid targets, and the process exits with status 0, every
-- target has a report, in order, and each is of plain HTTP or of a target that was connected over
-- TLS and verified. The flags could be read and there is a target at least, and the URL parser does
-- not panic.
pub run_check-AllAccepted :
    {World Conn Socket Pool : Type 0} (env : Environment World Conn Socket Pool)
    (console : Console World) (layouts : Layouts)
    (parse : CheckFlags → List Text → Parsed CheckFlags) (args : List Text) (w : World)
    (flags : CheckFlags) (target : Text) (targets : List Text)
    → parse check_defaults args ≡ parsed flags (target ∷ targets)
    → ((text : Text) → env.syntax.parse_url text ≢ panic)
    → flags.fail_on_invalid ≡ true
    → exit_status (run_check env console layouts parse args w).0 ≡ 0
    → AllAccepted env console layouts flags (target ∷ targets) w
run_check-AllAccepted env console layouts parse args w flags target targets read returns failing
      status =
    let (o, runs, concludes) =
      run_check-concluded env console layouts parse args w flags target targets read returns in
    concluded-AllAccepted env console layouts flags (target ∷ targets) w o failing runs
      (ap (λ c. c.0) (sym concludes) ∙ exit_status-finished _ status)
