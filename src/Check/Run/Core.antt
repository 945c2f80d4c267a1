-- ===== src/Check/Run/Core.antt =====
-- The part of a report that the steps behind the handshake leave alone.
use ssl_certificate_verifier.Base.{
  ◌≡◌, refl, ◌∙◌, Bool, true, false, not, ◌&&◌, if◌then◌else◌, List, Text, codes, ok, Returns,
  Returns-mono,
}
use ssl_certificate_verifier.Types.{
  Options, Target, TargetInfo, Result, Instant, TlsInfo, VerificationInfo, CertificateInfo,
}
use ssl_certificate_verifier.Dns.Check.{Resolver, check_dns}
use ssl_certificate_verifier.Dns.Lookup.{Datagrams}
use ssl_certificate_verifier.Check.Http.{HttpClient, is_scheme}
use ssl_certificate_verifier.Check.Http.Laws.{IsHttpChecked, check_http-IsHttpChecked}
use ssl_certificate_verifier.Dns.Check.Frame.{IsLookedUp, check_dns-IsLookedUp}
use ssl_certificate_verifier.Check.Run.{
  Environment, Plan, complain, dns_step, http_step, no_handshake, fallback, http_after_tls,
  after_tls,
}

pub record Core : Type 0 where
  pub input : Text
  pub target : TargetInfo
  pub checked_at : Instant
  pub protocol : Text
  pub tls : TlsInfo
  pub verification : VerificationInfo
  pub certificates : List CertificateInfo

abbrev pub core : Result → Core
core r = record {
  input = r.input;
  target = r.target;
  checked_at = r.checked_at;
  protocol = r.protocol;
  tls = r.tls;
  verification = r.verification;
  certificates = r.certificates;
}

http_checked-core :
    {World : Type 0} (client : HttpClient World) (target : Target) (opt : Options) (w : World)
    (before after : Result)
    → IsHttpChecked client target opt w before after
    → core after ≡ core before
http_checked-core client target opt w before after h =
    let o = h.others_are in
    rw
      (
        o.input_is, o.target_is, o.checked_at_is, o.protocol_is, o.tls_is, o.verification_is,
        o.certificates_are,
      )
      refl

looked_up-core :
    {World Conn : Type 0} (res : Resolver World) (net : Datagrams World Conn) (target : Target)
    (opt : Options) (w : World) (before after : Result)
    → IsLookedUp res net target opt w before after
    → core after ≡ core before
looked_up-core res net target opt w before after h =
    rw
      (
        h.input_is, h.target_is, h.checked_at_is, h.protocol_is, h.tls_is, h.verification_is,
        h.certificates_are,
      )
      refl

-- Both branches of a test have the core.
either :
    {World : Type 0} (b : Bool) (x y : Result × World) (c : Core)
    → core x.0 ≡ c
    → core y.0 ≡ c
    → core (if b then x else y).0 ≡ c
either true x y c h k = h
either false x y c h k = k

no_handshake-core : (target : Target) (r : Result) → core (no_handshake target r) ≡ core r
no_handshake-core target r = at (not r.tls.connected && is_scheme (codes "https") target)
  where
    at :
        (b : Bool)
        → core (if b then complain (codes "HTTPS target did not complete a TLS handshake") r else r)
          ≡ core r
    at true = refl
    at false = refl

module _ {World Conn Socket Pool : Type 0} (env : Environment World Conn Socket Pool) where
  pub dns_step-core :
      (p : Plan) (r : Result) (w : World)
      → Returns (λ after. core after ≡ core r) (dns_step env p r w).0
  dns_step-core p r w = at (not p.opt.skip_dns)
    where
      at :
          (b : Bool)
          → Returns
              (λ after. core after ≡ core r)
              (if b then check_dns env.resolver env.datagrams p.target p.opt r w else (ok r, w)).0
      at true =
          Returns-mono (IsLookedUp env.resolver env.datagrams p.target p.opt w r) _ _
            (looked_up-core env.resolver env.datagrams p.target p.opt w r)
            (check_dns-IsLookedUp env.resolver env.datagrams p.target p.opt r w)
      at false = refl

  pub http_step-core :
      (go : Bool) (target : Target) (opt : Options) (r : Result) (w : World)
      → core (http_step env go target opt r w).0 ≡ core r
  http_step-core true target opt r w =
      http_checked-core env.client target opt w r _
        (check_http-IsHttpChecked env.client target opt r w)
  http_step-core false target opt r w = refl

  http_after_tls-core :
      (p : Plan) (r : Result) (w : World) → core (http_after_tls env p r w).0 ≡ core r
  http_after_tls-core p r w = no_handshake-core p.target _ ∙ http_step-core _ p.target p.opt r w

  fallback-core : (p : Plan) (r : Result) (w : World) → core (fallback env p r w).0 ≡ core r
  fallback-core p r w =
      either _ _ _ (core r) (http_step-core (not p.opt.skip_http) _ p.opt _ w) refl

  pub after_tls-core : (p : Plan) (r : Result) (w : World) → core (after_tls env p r w).0 ≡ core r
  after_tls-core p r w = fallback-core p _ _ ∙ http_after_tls-core p r w
