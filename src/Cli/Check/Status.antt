-- ===== src/Cli/Check/Status.antt =====
-- What the status of `runCheck` says of the targets.
use ssl_certificate_verifier.Base.{
  ◌≡◌, ◌≢◌, refl, ap, ◌∙◌, Bool, ◌&&◌, any, List, [], ◌∷◌, Text, inl, inr, Outcome, ok, err, panic,
}
use ssl_certificate_verifier.Types.{Options, Result}
use ssl_certificate_verifier.Check.Run.{Environment, plan, check}
use ssl_certificate_verifier.Check.Run.Report.{IsOutcome, check-IsOutcome}
use ssl_certificate_verifier.Render.Trust.{Layouts}
use ssl_certificate_verifier.Cli.{failed, CommandResult, stopped, crashed, Parsed, parsed, Console}
use ssl_certificate_verifier.Cli.Check.{
  CheckFlags, check_defaults, is_invalid, with_report, check_targets, write_reports, verdict,
  checked, run_parsed, run_check,
}

module _ {World Conn Socket Pool : Type 0} (env : Environment World Conn Socket Pool) where
  -- The targets are checked one after the other, each in the state that the one before has left, up
  -- to the first that is refused.
  pub data Runs (opt : Options) : List Text → World → Outcome (List Result) × World → Type 0 where
    all_checked : (w : World) → Runs opt [] w (ok [], w)
    next_checked :
        (target : Text) (targets : List Text) (w w1 w2 : World) (r : Result) (results : List Result)
        → check env target opt w ≡ (ok r, w1)
        → Runs opt targets w1 (ok results, w2)
        → Runs opt (target ∷ targets) w (ok (r ∷ results), w2)
    refused :
        (target : Text) (targets : List Text) (w : World) (e : Text)
        → plan env.syntax target opt ≡ err e
        → Runs opt (target ∷ targets) w (err e, w)
    refused_later :
        (target : Text) (targets : List Text) (w w1 w2 : World) (r : Result) (e : Text)
        → check env target opt w ≡ (ok r, w1)
        → Runs opt targets w1 (err e, w2)
        → Runs opt (target ∷ targets) w (err e, w2)

  -- The reports with whether one of them is invalid.
  abbrev flagged : Outcome (List Result) × World → Outcome (List Result × Bool) × World
  flagged (ok results, w) = (ok (results, any is_invalid results), w)
  flagged (err e, w) = (err e, w)
  flagged (panic, w) = (panic, w)

  pub Runs-no_crash :
      (opt : Options) (targets : List Text) (w after : World)
      → Runs opt targets w (panic, after)
      → ⊥
  Runs-no_crash opt targets w after runs = elim runs [ ]

module _ {World Conn Socket Pool : Type 0} (env : Environment World Conn Socket Pool)
    (console : Console World) (layouts : Layouts) where
  -- The loop runs as the relation says.
  abbrev Follows : Options → List Text → World → Type 0
  Follows opt targets w =
      (o : Outcome (List Result) × World) × Runs env opt targets w o
      × (check_targets env console layouts opt targets w ≡ flagged env o)

  next-Follows :
      (opt : Options) (target : Text) (targets : List Text) (w : World) (c : Outcome Result × World)
      → check env target opt w ≡ c
      → IsOutcome env target opt w c
      → ((w : World) → Follows opt targets w)
      → Follows opt (target ∷ targets) w
  unfolding check_targets any
  next-Follows opt target targets w (ok r, w1) e outcome rest = at (rest w1)
    where
      at : Follows opt targets w1 → Follows opt (target ∷ targets) w
      at ((ok results, w2), runs, follows) = (
        (ok (r ∷ results), w2),
        next_checked target targets w w1 w2 r results e runs,
        rw (e, follows) refl,
      )
      at ((err message, w2), runs, follows) = (
        (err message, w2),
        refused_later target targets w w1 w2 r message e runs,
        rw (e, follows) refl,
      )
      at ((panic, w2), runs, follows) = absurd (Runs-no_crash env opt targets w1 w2 runs)
  next-Follows opt target targets w (err e, w1) c (inl (message, planned, o)) rest = (
    (err message, w),
    refused target targets w message planned,
    ap (λ m. with_report env console layouts m λ w. check_targets env console layouts opt targets w)
        (c ∙ o),
  )
  next-Follows opt target targets w (err e, w1) c (inr (p, planned, is_plan, h)) rest = absurd h
  next-Follows opt target targets w (panic, w1) c (inl (message, planned, o)) rest = cc
  next-Follows opt target targets w (panic, w1) c (inr (p, planned, is_plan, h)) rest = absurd h

  check_targets-Follows :
      (opt : Options) (targets : List Text) (w : World)
      → ((text : Text) → env.syntax.parse_url text ≢ panic)
      → Follows opt targets w
  unfolding check_targets any
  check_targets-Follows opt [] w returns = ((ok [], w), all_checked w, refl)
  check_targets-Follows opt (target ∷ targets) w returns =
      next-Follows opt target targets w _ refl (check-IsOutcome env target opt w (returns _))
        λ w1. check_targets-Follows opt targets w1 returns

  -- What the command does with the outcome of the targets.
  abbrev pub concluded : CheckFlags → Outcome (List Result) × World → CommandResult × World
  concluded flags (ok results, w) =
      write_reports env console layouts flags.format results
        (verdict env console layouts (flags.fail_on_invalid && any is_invalid results)) w
  concluded flags (err e, w) = (stopped (failed e), w)
  concluded flags (panic, w) = (crashed, w)

  checked-concluded :
      (flags : CheckFlags) (o : Outcome (List Result) × World)
      → checked env console layouts flags (flagged env o) ≡ concluded flags o
  checked-concluded flags (ok results, w) = refl
  checked-concluded flags (err e, w) = refl
  checked-concluded flags (panic, w) = refl

-- `runCheck` runs over the targets, and concludes from what they give.
pub run_check-concluded :
    {World Conn Socket Pool : Type 0} (env : Environment World Conn Socket Pool)
    (console : Console World) (layouts : Layouts)
    (parse : CheckFlags → List Text → Parsed CheckFlags) (args : List Text) (w : World)
    (flags : CheckFlags) (target : Text) (targets : List Text)
    → parse check_defaults args ≡ parsed flags (target ∷ targets)
    → ((text : Text) → env.syntax.parse_url text ≢ panic)
    → (o : Outcome (List Result) × World) × Runs env flags.opt (target ∷ targets) w o
      × (run_check env console layouts parse args w ≡ concluded env console layouts flags o)
unfolding run_check
run_check-concluded env console layouts parse args w flags target targets read returns =
    let (o, runs, follows) =
      check_targets-Follows env console layouts flags.opt (target ∷ targets) w returns in
    (
      o,
      runs,
      ap (λ p. run_parsed env console layouts p w) read
          ∙ ap (checked env console layouts flags) follows
          ∙ checked-concluded env console layouts flags o,
    )
