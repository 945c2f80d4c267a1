-- ===== src/Check/Run/Planned.antt =====
-- What `Check` knows before it uses the network.
use ssl_certificate_verifier.Base.{
  ℕ, ◌≤◌, ltb, ◌==◌, ◌≡◌, ◌≢◌, ◌⊎◌, refl, arith, false, not, ◌&&◌, Text, Outcome, ok, err, panic,
  IfOk, IfOk->>=, IfOk-if, Safely, Safely->>=, Safely-if,
}
use ssl_certificate_verifier.Strings.{trim_space}
use ssl_certificate_verifier.Types.{Options}
use ssl_certificate_verifier.Tls.Names.{normalize_timeout}
use ssl_certificate_verifier.Tls.Version.{tls_version_value, version_switch}
use ssl_certificate_verifier.Target.{Syntax, parse_target}
use ssl_certificate_verifier.Target.Bounds.{IsTarget, parse_target-IfOk}
use ssl_certificate_verifier.Target.Safe.{parse_target-Safely}
use ssl_certificate_verifier.Check.Run.{Plan, with_timeout, plan}

-- An accepted plan: the options with a timeout, the target of the input under them, and versions of
-- which a demanded minimum is not above a demanded maximum.
pub record IsPlan (syn : Syntax) (input : Text) (opt : Options) (p : Plan) : Type 0 where
  pub opt_is : p.opt ≡ record opt { timeout = normalize_timeout opt.timeout }
  pub target_is : IsTarget syn input (with_timeout opt) p.target
  pub versions_are : (p.min_version ≡ 0) ⊎ (p.max_version ≡ 0) ⊎ (p.min_version ≤ p.max_version)

in_order : (a b : ℕ) → not (a == 0) && not (b == 0) && ltb b a ≡ false → (a ≡ 0) ⊎ (b ≡ 0) ⊎ (a ≤ b)
in_order a b h = ground arith

-- Nothing is asked of a version.
abbrev AnyVersion : ℕ → Type 0
AnyVersion n = Unit

known : (m : Outcome ℕ) → IfOk AnyVersion m
known (ok n) = tt
known (err e) = tt
known panic = tt

pub plan-IfOk :
    (syn : Syntax) (input : Text) (opt : Options) → IfOk (IsPlan syn input opt) (plan syn input opt)
unfolding plan
plan-IfOk syn input opt = IfOk->>= AnyVersion _ (tls_version_value opt.tls_min) _ (known _) λ low _.
    IfOk->>= AnyVersion _ (tls_version_value opt.tls_max) _ (known _) λ high _.
      IfOk-if _ (not (low == 0) && not (high == 0) && ltb high low) _ _ (λ _. tt)
        λ ordered.
          IfOk->>= (IsTarget syn input (with_timeout opt)) _
            (parse_target syn input (with_timeout opt)) _
            (parse_target-IfOk syn input (with_timeout opt))
            λ t is_target. record {
              opt_is = refl;
              target_is = is_target;
              versions_are = in_order low high ordered;
            }

tls_version_value_returns : (raw : Text) → tls_version_value raw ≢ panic
unfolding tls_version_value version_switch
tls_version_value_returns raw e = ground arith

known-Safely : (m : Outcome ℕ) → m ≢ panic → Safely AnyVersion m
known-Safely (ok n) h = tt
known-Safely (err e) h = tt
known-Safely panic h = h refl

pub plan-Safely :
    (syn : Syntax) (input : Text) (opt : Options)
    → syn.parse_url (trim_space input) ≢ panic
    → Safely (λ p. Unit) (plan syn input opt)
unfolding plan
plan-Safely syn input opt h =
    Safely->>= AnyVersion _ (tls_version_value opt.tls_min) _
      (known-Safely _ (tls_version_value_returns opt.tls_min))
      λ low _.
        Safely->>= AnyVersion _ (tls_version_value opt.tls_max) _
          (known-Safely _ (tls_version_value_returns opt.tls_max))
          λ high _.
            Safely-if _ (not (low == 0) && not (high == 0) && ltb high low) _ _ (λ _. tt)
              λ _.
                Safely->>= (λ t. Unit {0}) _ (parse_target syn input (with_timeout opt)) _
                  (parse_target-Safely syn input (with_timeout opt) h) (λ _ _. tt)
