-- ===== src/Check/Run.antt =====
-- internal/checker/check.go: `Check`. All that it calls of the network is in one environment, over
-- one type of states of the world; reading the clock does not change the state.
pub mod Core
pub mod Equivalence
pub mod Planned
pub mod Report
use ssl_certificate_verifier.Base.{
  ℕ, ltb, ◌==◌, ◌/◌, ◌+◌, Bool, true, false, not, ◌&&◌, List, [], ◌∷◌, ◌++◌, if◌then◌else◌, Text,
  codes, some, Outcome, ok, err, panic, ◌>>=◌,
}
use ssl_certificate_verifier.Base.Int.{ℤ, pos, negsuc, sub_ℕ}
use ssl_certificate_verifier.Types.{
  Options, Target, TargetInfo, Result, Instant, Duration, empty_tls_info, empty_http_info,
  empty_dns_info, empty_verification_info, empty_security_info,
}
use ssl_certificate_verifier.X509.{X509}
use ssl_certificate_verifier.Tls.Names.{normalize_timeout, sni_name, verify_name}
use ssl_certificate_verifier.Tls.Version.{tls_version_value}
use ssl_certificate_verifier.Tls.Connect.{Network}
use ssl_certificate_verifier.Cert.Info.Time.{time_sub}
use ssl_certificate_verifier.Verify.Roots.{Verifier}
use ssl_certificate_verifier.Dns.Lookup.{Datagrams}
use ssl_certificate_verifier.Dns.Check.{Resolver, check_dns}
use ssl_certificate_verifier.Target.{Syntax, parse_target}
use ssl_certificate_verifier.Security.{analyze_security}
use ssl_certificate_verifier.Check.{check_tls}
use ssl_certificate_verifier.Check.Http.{HttpClient, is_scheme, check_http}

pub record Environment (World Conn Socket Pool : Type 0) : Type 0 where
  pub x509 : X509
  pub verifier : Verifier Pool
  pub network : Network World Conn
  pub datagrams : Datagrams World Socket
  pub resolver : Resolver World
  pub client : HttpClient World
  pub syntax : Syntax

-- What `Check` has found out before it uses the network.
pub record Plan : Type 0 where
  pub opt : Options
  pub min_version : ℕ
  pub max_version : ℕ
  pub target : Target

abbrev pub with_timeout : Options → Options
with_timeout opt = record opt { timeout = normalize_timeout opt.timeout }

unfoldable pub plan : Syntax → Text → Options → Outcome Plan
plan syn input opt = do
  min_version ← tls_version_value opt.tls_min
  max_version ← tls_version_value opt.tls_max
  if not (min_version == 0) && not (max_version == 0) && ltb max_version min_version
      then err (codes "tls-min cannot be greater than tls-max")
      else (do
        target ← parse_target syn input (with_timeout opt)
        ok (record {
          opt = with_timeout opt;
          min_version = min_version;
          max_version = max_version;
          target = target;
        }))

abbrev target_info : Target → Options → TargetInfo
target_info target opt = record {
  scheme = target.scheme;
  host = target.host;
  port = target.port;
  address = target.address;
  path = target.path;
  is_ip = target.is_ip;
  server_name = sni_name target opt;
  verify_name = verify_name target opt;
}

abbrev pub initial_result : Text → Plan → Instant → Result
initial_result input p now = record {
  input = input;
  target = target_info p.target p.opt;
  checked_at = now;
  duration_millis = pos 0;
  protocol = [];
  tls = empty_tls_info;
  http = empty_http_info;
  dns = empty_dns_info;
  verification = empty_verification_info;
  certificates = [];
  security = empty_security_info;
  warnings = [];
  errors = [];
}

-- `d.Milliseconds()`, cut off towards zero.
abbrev pub milliseconds : Duration → ℤ
milliseconds (pos n) = pos (n / 1000000)
milliseconds (negsuc n) = sub_ℕ 0 ((n + 1) / 1000000)

abbrev pub and_then :
    {World : Type 0}
    → Outcome Result × World
    → (Result → World → Outcome Result × World)
    → Outcome Result × World
and_then (ok r, w) next = next r w
and_then (err e, w) next = (err e, w)
and_then (panic, w) next = (panic, w)

abbrev pub warn : Text → Result → Result
warn text r = record r { warnings = r.warnings ++ text ∷ [] }

abbrev pub complain : Text → Result → Result
complain text r = record r { errors = r.errors ++ text ∷ [] }

-- The target is checked without TLS.
abbrev pub is_plain : Plan → Bool
is_plain p = is_scheme (codes "http") p.target && not p.opt.force_tls

abbrev http_scheme : Target → Target
http_scheme target = record target { scheme = codes "http" }

abbrev pub plain_warning : Text
plain_warning =
    codes
      "plain HTTP does not provide a TLS certificate to verify; use https:// or --force-tls for TLS services"

abbrev pub no_handshake : Target → Result → Result
no_handshake target r =
    if not r.tls.connected && is_scheme (codes "https") target
    then complain (codes "HTTPS target did not complete a TLS handshake") r
    else r

abbrev fallback_warning : Text
fallback_warning =
    codes "TLS handshake failed; attempting a plain HTTP probe because no URL scheme was provided"

module _ {World Conn Socket Pool : Type 0} (env : Environment World Conn Socket Pool) where
  abbrev pub dns_step : Plan → Result → World → Outcome Result × World
  dns_step p r w =
      if not p.opt.skip_dns
      then check_dns env.resolver env.datagrams p.target p.opt r w
      else (ok r, w)

  -- `checkHTTP` under a condition.
  abbrev pub http_step : Bool → Target → Options → Result → World → Result × World
  http_step go target opt r w = if go then check_http env.client target opt r w else (r, w)

  abbrev pub finish : Instant → Result × World → Outcome Result × World
  finish start (r, w) =
      let timed = record r {
        duration_millis = milliseconds (time_sub (env.network.now w) start);
      } in
      (ok (record timed { security = analyze_security (some timed) }), w)

  abbrev pub check_plain : Instant → Plan → Result → World → Outcome Result × World
  check_plain start p r w =
      let reached =
        http_step (not p.opt.skip_http) p.target p.opt (record r { protocol = codes "HTTP" }) w in
      finish start (warn plain_warning reached.0, reached.1)

  -- The probe over plain HTTP.
  abbrev pub fallback : Plan → Result → World → Result × World
  fallback p r w =
      if not r.tls.connected && (not (is_scheme (codes "https") p.target) && not p.opt.force_tls)
      then http_step (not p.opt.skip_http) (http_scheme p.target) p.opt (warn fallback_warning r) w
      else (r, w)

  abbrev pub http_after_tls : Plan → Result → World → Result × World
  http_after_tls p r w =
      let reached = http_step (r.tls.connected && not p.opt.skip_http) p.target p.opt r w in
      (no_handshake p.target reached.0, reached.1)

  abbrev pub after_tls : Plan → Result → World → Result × World
  after_tls p r w = let reached = http_after_tls p r w in fallback p reached.0 reached.1

  abbrev pub check_over_tls : Instant → Plan → Result → World → Outcome Result × World
  check_over_tls start p r w =
      and_then
        (check_tls env.x509 env.verifier env.network p.target p.opt p.min_version p.max_version
          (record r { protocol = codes "TLS" }) w)
        λ r w. finish start (after_tls p r w)

  abbrev pub check_branch : Instant → Plan → Result → World → Outcome Result × World
  check_branch start p r w =
      if is_plain p then check_plain start p r w else check_over_tls start p r w

  abbrev pub check_planned : Text → World → Outcome Plan → Outcome Result × World
  check_planned input w (ok p) =
      let now = env.network.now w in
      and_then (dns_step p (initial_result input p now) w) λ r w. check_branch now p r w
  check_planned input w (err e) = (err e, w)
  check_planned input w panic = (panic, w)

  unfoldable pub check : Text → Options → World → Outcome Result × World
  check input opt w = check_planned input w (plan env.syntax input opt)
