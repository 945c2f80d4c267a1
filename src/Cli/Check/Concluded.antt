-- ===== src/Cli/Check/Concluded.antt =====
-- What `runCheck` does with the reports.
use ssl_certificate_verifier.Base.{
  subst, ◌≡◌, ◌≢◌, refl, sym, arith, Bool, true, false, ◌&&◌, ◌||◌, any, if◌then◌else◌, List, [],
  ◌∷◌, ◌++◌, length, Text, codes, str_eq, str_eq_iff, is_empty, Option, none, some, ◌⊎◌, inl, inr,
  Outcome, ok, err, panic,
}
use ssl_certificate_verifier.Strings.{to_lower, quote}
use ssl_certificate_verifier.Types.{Result}
use ssl_certificate_verifier.Check.Run.{Environment}
use ssl_certificate_verifier.Render.{render_text}
use ssl_certificate_verifier.Render.Trust.{Layouts}
use ssl_certificate_verifier.Cli.{
  CommandResult, finished, stopped, failed, invalid_exit, Parsed, parsed, Payload, one, many,
  Console,
}
use ssl_certificate_verifier.Cli.Check.{
  CheckFlags, check_defaults, is_invalid, payload, encoded, print_reports, unsupported_format,
  write_reports, verdict, run_check,
}
use ssl_certificate_verifier.Cli.Check.Status.{Runs, Runs-no_crash, concluded, run_check-concluded}

-- A single report is written by itself, and any other number as a list.
pub data IsPayload : List Result → Payload → Type 0 where
  single : (r : Result) → IsPayload (r ∷ []) (one r)
  listed : (results : List Result) → length results ≢ 1 → IsPayload results (many results)

-- The command stops as invalid just if that was asked for and a report is invalid.
pub data IsVerdict (flags : CheckFlags) (results : List Result) : CommandResult → Type 0 where
  invalid :
      flags.fail_on_invalid ≡ true
      → any is_invalid results ≡ true
      → IsVerdict flags results (stopped invalid_exit)
  passed :
      (flags.fail_on_invalid ≡ false) ⊎ (any is_invalid results ≡ false)
      → IsVerdict flags results finished

-- The texts of the reports, with a blank line between two.
abbrev texts : Layouts → List Result → List Text
texts layouts [] = []
texts layouts (r ∷ []) = render_text layouts (some r) ∷ []
texts layouts (r ∷ s ∷ results) =
    render_text layouts (some r) ∷ (b'\n' ∷ []) ∷ texts layouts (s ∷ results)

abbrev print_all : {World : Type 0} → Console World → List Text → World → World
print_all console [] w = w
print_all console (text ∷ others) w = print_all console others (console.print text w)

-- How the command ends, by the outcome of the targets and the format.
pub data IsConcluded {World : Type 0} (console : Console World) (layouts : Layouts)
    (flags : CheckFlags) : Outcome (List Result) × World → CommandResult × World → Type 0 where
  not_checked :
      (e : Text) (w : World) → IsConcluded console layouts flags (err e, w) (stopped (failed e), w)
  json_failed :
      (results : List Result) (p : Payload) (e : Text) (w w1 : World)
      → to_lower flags.format ≡ codes "json"
      → IsPayload results p
      → console.encode p w ≡ (some e, w1)
      → IsConcluded console layouts flags (ok results, w) (stopped (failed e), w1)
  json_written :
      (results : List Result) (p : Payload) (end : CommandResult) (w w1 : World)
      → to_lower flags.format ≡ codes "json"
      → IsPayload results p
      → console.encode p w ≡ (none, w1)
      → IsVerdict flags results end
      → IsConcluded console layouts flags (ok results, w) (end, w1)
  text_written :
      (results : List Result) (end : CommandResult) (w : World)
      → (to_lower flags.format ≡ codes "text") ⊎ (to_lower flags.format ≡ [])
      → IsVerdict flags results end
      → IsConcluded console layouts flags
          (ok results, w)
          (end, print_all console (texts layouts results) w)
  unsupported :
      (results : List Result) (w : World)
      → to_lower flags.format ≢ codes "json"
      → to_lower flags.format ≢ codes "text"
      → to_lower flags.format ≢ []
      → IsConcluded console layouts flags
          (ok results, w)
          (stopped (failed (codes "unsupported format " ++ quote flags.format)), w)

payload-IsPayload : (results : List Result) → IsPayload results (payload results)
payload-IsPayload [] = listed [] λ e. cc
payload-IsPayload (r ∷ []) = single r
payload-IsPayload (r ∷ s ∷ results) = listed (r ∷ s ∷ results) λ e. ground (arith, e)

empty-nil : (s : Text) → is_empty s ≡ true → s ≡ []
empty-nil [] h = refl
empty-nil (c ∷ s) h = cc

nonempty : (s : Text) → is_empty s ≡ false → s ≢ []
nonempty [] h e = cc
nonempty (c ∷ s) h e = cc

differs : (s t : Text) → str_eq s t ≡ false → s ≢ t
differs s t h e = ground (arith, h, (str_eq_iff s t).1 e)

module _ {World Conn Socket Pool : Type 0} (env : Environment World Conn Socket Pool)
    (console : Console World) (layouts : Layouts) where
  print_reports-all :
      (results : List Result) (w : World)
      → print_reports env console layouts results w ≡ print_all console (texts layouts results) w
  unfolding print_reports
  print_reports-all [] w = refl
  print_reports-all (r ∷ []) w = refl
  print_reports-all (r ∷ s ∷ results) w = print_reports-all (s ∷ results) _

  verdict-IsVerdict :
      (flags : CheckFlags) (results : List Result)
      → IsVerdict flags results
          (verdict env console layouts (flags.fail_on_invalid && any is_invalid results))
  verdict-IsVerdict flags results = at flags.fail_on_invalid (any is_invalid results) refl refl
    where
      at :
          (strict bad : Bool)
          → flags.fail_on_invalid ≡ strict
          → any is_invalid results ≡ bad
          → IsVerdict flags results (verdict env console layouts (strict && bad))
      at true true h k = invalid h k
      at true false h k = passed (inr k)
      at false bad h k = passed (inl h)

  encoded-IsConcluded :
      (flags : CheckFlags) (results : List Result) (end : CommandResult) (w : World)
      (o : Option Text × World)
      → to_lower flags.format ≡ codes "json"
      → console.encode (payload results) w ≡ o
      → IsVerdict flags results end
      → IsConcluded console layouts flags (ok results, w) (encoded env console layouts end o)
  encoded-IsConcluded flags results end w (some e, w1) json sent is_end =
      json_failed results _ e w w1 json (payload-IsPayload results) sent
  encoded-IsConcluded flags results end w (none, w1) json sent is_end =
      json_written results _ end w w1 json (payload-IsPayload results) sent is_end

  -- The format of the reports by the two tests.
  write_reports-IsConcluded :
      (flags : CheckFlags) (results : List Result) (end : CommandResult) (w : World)
      → IsVerdict flags results end
      → IsConcluded console layouts flags
          (ok results, w)
          (write_reports env console layouts flags.format results end w)
  write_reports-IsConcluded flags results end w is_end =
      at (str_eq format (codes "json")) (str_eq format (codes "text")) (is_empty format) refl refl
        refl
    where
      format : Text
      format = to_lower flags.format

      at :
          (json plain blank : Bool)
          → str_eq (to_lower flags.format) (codes "json") ≡ json
          → str_eq (to_lower flags.format) (codes "text") ≡ plain
          → is_empty (to_lower flags.format) ≡ blank
          → IsConcluded console layouts flags
              (ok results, w)
              (if json
                then encoded env console layouts end (console.encode (payload results) w)
                else if plain || blank
                then (end, print_reports env console layouts results w)
                else (stopped (unsupported_format flags.format), w))
      at true plain blank h k l =
          encoded-IsConcluded flags results end w _ ((str_eq_iff _ _).0 h) refl is_end
      at false true blank h k l =
          rw (print_reports-all results w)
            (text_written results end w (inl ((str_eq_iff _ _).0 k)) is_end)
      at false false true h k l =
          rw (print_reports-all results w) (text_written results end w (inr (empty-nil _ l)) is_end)
      at false false false h k l =
          unsupported results w (differs _ _ h) (differs _ _ k) (nonempty _ l)

  concluded-IsConcluded :
      (flags : CheckFlags) (targets : List Text) (w : World) (o : Outcome (List Result) × World)
      → Runs env flags.opt targets w o
      → IsConcluded console layouts flags o (concluded env console layouts flags o)
  concluded-IsConcluded flags targets w (ok results, w1) runs =
      write_reports-IsConcluded flags results _ w1 (verdict-IsVerdict flags results)
  concluded-IsConcluded flags targets w (err e, w1) runs = not_checked e w1
  concluded-IsConcluded flags targets w (panic, w1) runs =
      absurd (Runs-no_crash env flags.opt targets w w1 runs)

-- `runCheck`, for flags that could be read and at least one target, if the URL parser does not
-- panic: the targets are checked in order, each in the state that the one before has left. The
-- first that `Check` refuses ends the command with its error, and nothing is written. Without one,
-- the reports are written: as JSON if that is the format, a single report by itself, as texts with
-- blank lines between them if the format is text or empty, and else not, with an error. If they
-- could be written, the command stops as invalid just if that was asked for and a report is
-- invalid.
pub run_check-IsConcluded :
    {World Conn Socket Pool : Type 0} (env : Environment World Conn Socket Pool)
    (console : Console World) (layouts : Layouts)
    (parse : CheckFlags → List Text → Parsed CheckFlags) (args : List Text) (w : World)
    (flags : CheckFlags) (target : Text) (targets : List Text)
    → parse check_defaults args ≡ parsed flags (target ∷ targets)
    → ((text : Text) → env.syntax.parse_url text ≢ panic)
    → (o : Outcome (List Result) × World) × Runs env flags.opt (target ∷ targets) w o
      × IsConcluded console layouts flags o (run_check env console layouts parse args w)
run_check-IsConcluded env console layouts parse args w flags target targets read returns =
    let (o, runs, concludes) =
      run_check-concluded env console layouts parse args w flags target targets read returns in
    (
      o,
      runs,
      subst (IsConcluded console layouts flags o) (sym concludes)
          (concluded-IsConcluded env console layouts flags (target ∷ targets) w o runs),
    )
