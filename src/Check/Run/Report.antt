-- ===== src/Check/Run/Report.antt =====
-- What `Check` reports.
use ssl_certificate_verifier.Base.{
  ◌&&◌, ◌≡◌, ◌≢◌, refl, ap, ◌∙◌, sym, subst, Bool, true, false, not, if◌then◌else◌, [], Text, codes,
  ◌⊎◌, inl, inr, some, Outcome, ok, err, panic, Returns, Returns-mono, IfOk, Safely, str_eq,
  str_eq_iff, Bool-cases, arith,
}
use ssl_certificate_verifier.Strings.{trim_space}
use ssl_certificate_verifier.Types.{
  Options, Result, Instant, empty_tls_info, empty_verification_info, VerificationInfo,
}
use ssl_certificate_verifier.Verify.{verify_peer_certificates}
use ssl_certificate_verifier.Cert.Info.Laws.{ReportsFrom}
use ssl_certificate_verifier.Tls.Connect.{connect_tls}
use ssl_certificate_verifier.Types.{TargetInfo}
use ssl_certificate_verifier.Tls.Names.{sni_name, verify_name}
use ssl_certificate_verifier.Dns.Check.{check_dns}
use ssl_certificate_verifier.Check.{check_tls}
use ssl_certificate_verifier.Security.{analyze_security}
use ssl_certificate_verifier.Security.Verdict.{IsTrusted, analyze_security-IsTrusted}
use ssl_certificate_verifier.Security.Stable.{analyze_security_stable}
use ssl_certificate_verifier.Check.Warnings.{IsChecked, check_tls-IsChecked}
use ssl_certificate_verifier.Base.Int.{ℤ}
use ssl_certificate_verifier.Cert.Info.Time.{time_sub}
use ssl_certificate_verifier.Check.Run.{
  milliseconds, warn, plain_warning, Environment, Plan, plan, initial_result, and_then, is_plain,
  dns_step, http_step, finish, check_plain, after_tls, check_over_tls, check_branch, check_planned,
  check,
}
use ssl_certificate_verifier.Check.Run.Core.{
  Core, core, dns_step-core, http_step-core, after_tls-core,
}
use ssl_certificate_verifier.Check.Run.Planned.{IsPlan, plan-IfOk, plan-Safely}

-- A target that is checked without TLS.
abbrev pub plain_http : Plan → Bool
plain_http p = str_eq p.target.scheme (codes "http") && not p.opt.force_tls

-- The target of a report.
abbrev reported_target : Plan → TargetInfo
reported_target p = record {
  scheme = p.target.scheme;
  host = p.target.host;
  port = p.target.port;
  address = p.target.address;
  path = p.target.path;
  is_ip = p.target.is_ip;
  server_name = sni_name p.target p.opt;
  verify_name = verify_name p.target p.opt;
}

abbrev with_protocol : Text → Core → Core
with_protocol protocol c = record c { protocol = protocol }

module _ {World Conn Socket Pool : Type 0} (env : Environment World Conn Socket Pool) where
  -- The two outcomes of the handshake for a report made at `now`, by the connection that is made in
  -- the state `w`; the certificates are those that the network has for the peer.
  pub data IsHandshaken (p : Plan) (now : Instant) (w : World) : Core → Type 0 where
    not_connected :
        (c : Core) (e : Text) (w1 : World)
        → connect_tls env.network p.target p.opt p.min_version p.max_version w ≡ (inl e, w1)
        → c.tls.attempted ≡ true
        → c.tls.connected ≡ false
        → c.certificates ≡ []
        → c.verification ≡ empty_verification_info
        → IsHandshaken p now w c
    connected :
        (c : Core) (conn : Conn) (w1 : World)
        → connect_tls env.network p.target p.opt p.min_version p.max_version w
          ≡ (inr (conn, env.network.connection_state conn w1), w1)
        → c.tls.attempted ≡ true
        → c.tls.connected ≡ true
        → ReportsFrom env.x509 now 0
            (env.network.connection_state conn w1).peer_certificates
            c.certificates
        → c.verification
          ≡ (verify_peer_certificates env.x509 env.verifier
              (env.network.connection_state conn w1).peer_certificates
              p.target
              p.opt
              now).0
        → IsHandshaken p now w c

  -- The state behind the lookups of the DNS, in which the handshake starts.
  abbrev pub looked_up : Text → Plan → World → World
  looked_up input p w =
      let initial = initial_result input p (env.network.now w) in
      (if not p.opt.skip_dns
        then check_dns env.resolver env.datagrams p.target p.opt initial w
        else (ok initial, w)).1

  -- The report before the handshake.
  abbrev start_core : Text → Plan → Instant → Text → Core
  start_core input p now protocol = record {
    input = input;
    target = reported_target p;
    checked_at = now;
    protocol = protocol;
    tls = empty_tls_info;
    verification = empty_verification_info;
    certificates = [];
  }

  -- Without TLS all is as it was; with it, there is an outcome of the handshake.
  abbrev pub IsBranch : Text → Plan → Instant → World → Core → Type 0
  IsBranch input p now w c =
      (plain_http p ≡ true) × (c ≡ start_core input p now (codes "HTTP"))
      ⊎ (plain_http p ≡ false)
        × (c.input ≡ input)
        × (c.target ≡ reported_target p)
        × (c.checked_at ≡ now)
        × (c.protocol ≡ codes "TLS")
        × IsHandshaken p now w c

  -- The report of an accepted plan.
  abbrev pub IsReported : Text → Plan → Instant → World → Result → Type 0
  IsReported input p now w r =
      IsBranch input p now w (core r) × (r.security ≡ analyze_security (some r))

  -- `time.Since(start)` in milliseconds.
  abbrev elapsed : Instant → World → ℤ
  elapsed start w = milliseconds (time_sub (env.network.now w) start)

  finish-core :
      (start : Instant) (o : Result × World) (P : Core → Type 0)
      → P (core o.0)
      → Returns (λ r. P (core r) × (r.security ≡ analyze_security (some r))) (finish env start o).0
  finish-core start (r, w) P h =
      (h, sym (analyze_security_stable (record r { duration_millis = elapsed start w }) _))

  -- The outcome of `checkTLS` for a report that starts as above.
  handshake :
      (input : Text) (p : Plan) (now : Instant) (w : World) (before after : Result)
      → core before ≡ start_core input p now (codes "TLS")
      → plain_http p ≡ false
      → IsChecked env.x509 env.verifier env.network p.target p.opt p.min_version p.max_version w
          before after
      → IsBranch input p now w (core after)
  handshake input p now w before after start tls
        (IsChecked.failed _ e w1 refused a c es ws cs v rest) =
      inr (
        tls,
        rest.input_is ∙ ap (λ c. c.input) start,
        rest.target_is ∙ ap (λ c. c.target) start,
        rest.checked_at_is ∙ ap (λ c. c.checked_at) start,
        rest.protocol_is ∙ ap (λ c. c.protocol) start,
        not_connected _ e w1 refused a (c ∙ ap (λ c. c.tls.connected) start)
            (cs ∙ ap (λ c. c.certificates) start) (v ∙ ap (λ c. c.verification) start),
      )
  handshake input p now w before after start tls
        (IsChecked.connected _ conn w1 shaken a c from v ws es rest) =
      let certs = (env.network.connection_state conn w1).peer_certificates in
      inr (
        tls,
        rest.input_is ∙ ap (λ c. c.input) start,
        rest.target_is ∙ ap (λ c. c.target) start,
        rest.checked_at_is ∙ ap (λ c. c.checked_at) start,
        rest.protocol_is ∙ ap (λ c. c.protocol) start,
        connected _ conn w1 shaken a c
            (subst (λ t. ReportsFrom env.x509 t 0 certs after.certificates)
              (ap (λ c. c.checked_at) start) from)
            (v
              ∙ ap (λ t. (verify_peer_certificates env.x509 env.verifier certs p.target p.opt t).0)
                  (ap (λ c. c.checked_at) start)),
      )

  and_then-Returns :
      (P Q : Result → Type 0) (m : Outcome Result × World)
      (next : Result → World → Outcome Result × World)
      → Returns P m.0
      → ((r : Result) → P r → Returns Q (next r m.1).0)
      → Returns Q (and_then m next).0
  and_then-Returns P Q (ok r, w) next h k = k r h
  and_then-Returns P Q (err e, w) next h k = h
  and_then-Returns P Q (panic, w) next h k = h

  check_plain-IsReported :
      (input : Text) (p : Plan) (now : Instant) (r : Result) (w : World)
      → core r ≡ start_core input p now []
      → plain_http p ≡ true
      → Returns (IsReported input p now w) (check_plain env now p r w).0
  check_plain-IsReported input p now r w start plain =
      let reached =
        http_step env (not p.opt.skip_http) p.target p.opt (record r { protocol = codes "HTTP" })
          w in
      finish-core now (warn plain_warning reached.0, reached.1) (IsBranch input p now w)
        (inl (
          plain,
          http_step-core env _ p.target p.opt _ w ∙ ap (with_protocol (codes "HTTP")) start,
        ))

  check_over_tls-IsReported :
      (input : Text) (p : Plan) (now : Instant) (r : Result) (w : World)
      → core r ≡ start_core input p now []
      → plain_http p ≡ false
      → Returns (IsReported input p now w) (check_over_tls env now p r w).0
  check_over_tls-IsReported input p now r w start tls =
      let before = record r { protocol = codes "TLS" } in
      let checked =
        check_tls env.x509 env.verifier env.network p.target p.opt p.min_version p.max_version
          before w in
      and_then-Returns
        (IsChecked env.x509 env.verifier env.network p.target p.opt p.min_version p.max_version w
          before)
        (IsReported input p now w) checked _
        (check_tls-IsChecked env.x509 env.verifier env.network p.target p.opt p.min_version
          p.max_version before w)
        λ after is_checked.
          finish-core now (after_tls env p after checked.1) (IsBranch input p now w) (
            subst (IsBranch input p now w) (sym (after_tls-core env p after checked.1)) (
              handshake input p now w before after (ap (with_protocol (codes "TLS")) start) tls
                is_checked))

  check_branch-IsReported :
      (input : Text) (p : Plan) (now : Instant) (r : Result) (w : World)
      → core r ≡ start_core input p now []
      → Returns (IsReported input p now w) (check_branch env now p r w).0
  check_branch-IsReported input p now r w start = at (is_plain p) refl
    where
      at :
          (b : Bool)
          → plain_http p ≡ b
          → Returns
              (IsReported input p now w)
              (if b then check_plain env now p r w else check_over_tls env now p r w).0
      at true = check_plain-IsReported input p now r w start
      at false = check_over_tls-IsReported input p now r w start

  -- An input is refused before the world is touched, or its plan has a report.
  abbrev pub IsOutcome : Text → Options → World → Outcome Result × World → Type 0
  IsOutcome input opt w o =
      ((e : Text) × (plan env.syntax input opt ≡ err e) × (o ≡ (err e, w)))
      ⊎ ((p : Plan) × (plan env.syntax input opt ≡ ok p)
          × IsPlan env.syntax input opt p
          × Returns (IsReported input p (env.network.now w) (looked_up input p w)) o.0)

  check_planned-IsReported :
      (input : Text) (p : Plan) (w : World)
      → Returns
          (IsReported input p (env.network.now w) (looked_up input p w))
          (check_planned env input w (ok p)).0
  check_planned-IsReported input p w =
      let now = env.network.now w in
      let initial = initial_result input p now in
      and_then-Returns (λ r. core r ≡ core initial) (IsReported input p now (looked_up input p w))
        (dns_step env p initial w) _ (dns_step-core env p initial w)
        λ r start. check_branch-IsReported input p now r (looked_up input p w) start

  planned-IsOutcome :
      (input : Text) (opt : Options) (w : World) (m : Outcome Plan)
      → plan env.syntax input opt ≡ m
      → IfOk (IsPlan env.syntax input opt) m
      → Safely (λ p. Unit {0}) m
      → IsOutcome input opt w (check_planned env input w m)
  planned-IsOutcome input opt w (ok p) e is_plan safe =
      inr (p, e, is_plan, check_planned-IsReported input p w)
  planned-IsOutcome input opt w (err message) e is_plan safe = inl (message, e, refl)
  planned-IsOutcome input opt w panic e is_plan safe = absurd safe

-- `Check` never panics, if the URL parser does not, whatever the network, the resolvers and the
-- verifier give. Either it refuses the input or the options and has not touched the network, or it
-- returns a report, never an error. A report of a plain http target has the protocol HTTP and
-- nothing of TLS. Any other has the protocol TLS, and, by the handshake that starts in the state
-- behind the lookups of the DNS, either that has failed and there is no certificate, or a report on
-- each certificate that the network has for the peer, with the verdict of their verification.
-- Its target and time are those of the call, and its findings and grade are the analysis of the
-- report itself.
pub check-IsOutcome :
    {World Conn Socket Pool : Type 0} (env : Environment World Conn Socket Pool) (input : Text)
    (opt : Options) (w : World)
    → env.syntax.parse_url (trim_space input) ≢ panic
    → IsOutcome env input opt w (check env input opt w)
unfolding check
check-IsOutcome env input opt w returns =
    planned-IsOutcome env input opt w (plan env.syntax input opt) refl
      (plan-IfOk env.syntax input opt) (plan-Safely env.syntax input opt returns)

-- A verification that was made found none of the three critical faults.
abbrev pub IsFaultless : VerificationInfo → Type 0
IsFaultless info =
    (info.checked ≡ false)
    ⊎ (info.verified ≡ true)
      × (info.expired ≡ false)
      × ((info.hostname_checked ≡ false) ⊎ (info.hostname_verified ≡ true))

implied : (a b : Bool) → (a ≡ true → b ≡ true) → (a ≡ false) ⊎ (b ≡ true)
implied true b h = inr (h refl)
implied false b h = inl refl

trusted-IsFaultless : (r : Result) → IsTrusted r → IsFaultless r.verification
trusted-IsFaultless r trusted = elim (Bool-cases r.verification.checked) [
  | inl checked ↦
      inr
        (trusted.verified checked, trusted.not_expired checked, implied _ _ (trusted.named checked))
  | inr unchecked ↦ inl unchecked
]

module _ {World Conn Socket Pool : Type 0} (env : Environment World Conn Socket Pool) where
  -- The handshake that starts in the state `w` has succeeded, the report is on the certificates
  -- that the network has for the peer, and their verification was faultless.
  abbrev pub IsVerifiedPeer : Plan → Instant → World → Result → Type 0
  IsVerifiedPeer p now w r =
      (r.tls.connected ≡ true)
      × ((conn : Conn) × ((w1 : World) × (connect_tls env.network p.target p.opt p.min_version
                p.max_version w
              ≡ (inr (conn, env.network.connection_state conn w1), w1))
            × ReportsFrom env.x509 now 0 (env.network.connection_state conn w1).peer_certificates
                r.certificates
            × IsFaultless
                (verify_peer_certificates env.x509 env.verifier
                  (env.network.connection_state conn w1).peer_certificates p.target p.opt now).0))

  handshaken-IsVerifiedPeer :
      (p : Plan) (now : Instant) (w : World) (r : Result)
      → IsTrusted r
      → IsHandshaken env p now w (core r)
      → IsVerifiedPeer p now w r
  handshaken-IsVerifiedPeer p now w r trusted (not_connected _ e w1 refused a c cs v) =
      cc (trusted.connected a, c)
  handshaken-IsVerifiedPeer p now w r trusted (connected _ conn w1 shaken a c from v) =
      (c, (conn, (w1, shaken, from, subst IsFaultless v (trusted-IsFaultless r trusted))))

  reported-IsVerifiedPeer :
      (input : Text) (p : Plan) (now : Instant) (w : World) (r : Result)
      → plain_http p ≡ false
      → IsReported env input p now w r
      → (r.security.local_grade ≡ codes "F") ⊎ IsVerifiedPeer p now w r
  reported-IsVerifiedPeer input p now w r tls (inl (plain, e), analysed) = cc
  reported-IsVerifiedPeer input p now w r tls (inr (_, _, _, _, _, shaken), analysed) =
      elim (Bool-cases (str_eq r.security.local_grade (codes "F"))) [
        | inl failing ↦ inl ((str_eq_iff _ _).0 failing)
        | inr graded ↦ inr (
            handshaken-IsVerifiedPeer p now w r
              (analyze_security-IsTrusted r λ e. ground (
                arith,
                graded,
                (str_eq_iff r.security.local_grade (codes "F")).1 (analysed_grade e),
              ))
              shaken)
      ]
    where
      analysed_grade :
          (analyze_security (some r)).local_grade ≡ codes "F" → r.security.local_grade ≡ codes "F"
      analysed_grade e = ap (λ s. s.local_grade) analysed ∙ e

-- If `Check` has planned a check over TLS, it returns a report, and either that is graded F, or the
-- handshake behind the lookups of the DNS has succeeded, and the report is on the certificates that
-- the network has for the peer of the connection: for these the verification, if it looked at any,
-- found a trusted chain, a leaf that has not expired, and the right name if there was a name to
-- check.
pub check-IsVerifiedPeer :
    {World Conn Socket Pool : Type 0} (env : Environment World Conn Socket Pool) (input : Text)
    (opt : Options) (w : World) (p : Plan)
    → plan env.syntax input opt ≡ ok p
    → plain_http p ≡ false
    → Returns
        (λ r.
          (r.security.local_grade ≡ codes "F")
          ⊎ IsVerifiedPeer env p (env.network.now w) (looked_up env input p w) r)
        (check env input opt w).0
unfolding check
check-IsVerifiedPeer env input opt w p planned tls = rw planned (
    Returns-mono (IsReported env input p (env.network.now w) (looked_up env input p w)) _ _
      (λ r reported.
        reported-IsVerifiedPeer env input p (env.network.now w) (looked_up env input p w) r tls
          reported)
      (check_planned-IsReported env input p w))
