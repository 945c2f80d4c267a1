-- ===== src/Check/Run/Equivalence.antt =====
-- The fallback of `Check` to plain HTTP, against the same code without it.
use ssl_certificate_verifier.Base.{
  ◌≡◌, refl, arith, Bool, true, false, not, ◌&&◌, if◌then◌else◌, Text, codes, str_eq, str_eq_iff,
  Outcome, ok, err, panic, IfOk, IfOk-mono, if_false, ap,
}
use ssl_certificate_verifier.Types.{Options, Result, Instant}
use ssl_certificate_verifier.Target.Bounds.{IsScheme}
use ssl_certificate_verifier.Check.{check_tls}
use ssl_certificate_verifier.Check.Run.{
  Environment, Plan, plan, initial_result, and_then, is_plain, dns_step, finish, check_plain,
  http_after_tls, fallback, check_over_tls, check_planned, check,
}
use ssl_certificate_verifier.Check.Run.Planned.{IsPlan, plan-IfOk}

module _ {World Conn Socket Pool : Type 0} (env : Environment World Conn Socket Pool) where
  -- `Check` without its probe over plain HTTP: over TLS, nothing is done behind the handshake, the
  -- request over the connection, and the error of an https target.
  abbrev direct_over_tls : Instant → Plan → Result → World → Outcome Result × World
  direct_over_tls start p r w =
      and_then
        (check_tls env.x509 env.verifier env.network p.target p.opt p.min_version p.max_version
          (record r { protocol = codes "TLS" }) w)
        λ r w. finish env start (http_after_tls env p r w)

  abbrev direct_branch : Instant → Plan → Result → World → Outcome Result × World
  direct_branch start p r w =
      if is_plain p then check_plain env start p r w else direct_over_tls start p r w

  abbrev direct_planned : Text → World → Outcome Plan → Outcome Result × World
  direct_planned input w (ok p) =
      let now = env.network.now w in
      and_then (dns_step env p (initial_result input p now) w) λ r w. direct_branch now p r w
  direct_planned input w (err e) = (err e, w)
  direct_planned input w panic = (panic, w)

  unfoldable pub check_direct : Text → Options → World → Outcome Result × World
  check_direct input opt w = direct_planned input w (plan env.syntax input opt)

-- Steps that agree on a value.
and_then_eq :
    {World : Type 0} (m : Outcome Result × World) (f g : Result → World → Outcome Result × World)
    → ((r : Result) (w : World) → f r w ≡ g r w)
    → and_then m f ≡ and_then m g
and_then_eq (ok r, w) f g h = h r w
and_then_eq (err e, w) f g h = refl
and_then_eq (panic, w) f g h = refl

if_eq :
    {A : Type 0} (b : Bool) (x y z : A)
    → (b ≡ false → y ≡ z)
    → (if b then x else y) ≡ (if b then x else z)
if_eq true x y z h = refl
if_eq false x y z h = h refl

-- An http target that is not plain is forced to TLS, and any other is https.
no_fallback :
    (scheme : Text) (connected forced : Bool)
    → IsScheme scheme
    → str_eq scheme (codes "http") && not forced ≡ false
    → not connected && (not (str_eq scheme (codes "https")) && not forced) ≡ false
no_fallback scheme connected forced known over_tls =
    ground (arith, str_eq_iff scheme (codes "http"), str_eq_iff scheme (codes "https"))

module _ {World Conn Socket Pool : Type 0} (env : Environment World Conn Socket Pool) where
  fallback_never :
      (p : Plan) (r : Result) (w : World)
      → IsScheme p.target.scheme
      → is_plain p ≡ false
      → fallback env p r w ≡ (r, w)
  fallback_never p r w known over_tls =
      if_false _ _ _ (no_fallback p.target.scheme r.tls.connected p.opt.force_tls known over_tls)

  over_tls-direct :
      (start : Instant) (p : Plan) (r : Result) (w : World)
      → IsScheme p.target.scheme
      → is_plain p ≡ false
      → check_over_tls env start p r w ≡ direct_over_tls env start p r w
  over_tls-direct start p r w known over_tls = and_then_eq _ _ _ λ r w.
      ap (finish env start)
        (fallback_never p (http_after_tls env p r w).0 (http_after_tls env p r w).1 known over_tls)

  planned-direct :
      (input : Text) (w : World) (m : Outcome Plan)
      → IfOk (λ p. IsScheme p.target.scheme) m
      → check_planned env input w m ≡ direct_planned env input w m
  planned-direct input w (ok p) known =
      and_then_eq (dns_step env p (initial_result input p (env.network.now w)) w) _ _
        λ r w'. if_eq (is_plain p) _ _ _ (over_tls-direct _ p r w' known)
  planned-direct input w (err e) known = refl
  planned-direct input w panic known = refl

-- For every input, option and environment, `Check` gives the report, and leaves the world, that the
-- same code without the fallback to plain HTTP does: an accepted target has the scheme https, or is
-- checked as plain HTTP, or is forced to TLS.
pub check-direct :
    {World Conn Socket Pool : Type 0} (env : Environment World Conn Socket Pool) (input : Text)
    (opt : Options) (w : World)
    → check env input opt w ≡ check_direct env input opt w
unfolding check check_direct
check-direct env input opt w = planned-direct env input w (plan env.syntax input opt) (
    IfOk-mono (IsPlan env.syntax input opt) _ _ (λ p is_plan. is_plan.target_is.scheme_is)
      (plan-IfOk env.syntax input opt))
