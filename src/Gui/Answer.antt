-- ===== src/Gui/Answer.antt =====
-- What `checkAPI` answers.
use ssl_certificate_verifier.Base.{
  if_true, if_false, ℕ, zero, suc, ◌≤◌, ◌*◌, ◌≡◌, ◌≢◌, refl, arith, Bool, true, false, not,
  if◌then◌else◌, [], ◌∷◌, Text, codes, str_eq, str_eq_iff, is_empty, ◌⊎◌, inl, inr, Outcome, ok,
  err, panic, Returns,
}
use ssl_certificate_verifier.Base.Int.{ℤ, pos, negsuc, ltb_ℤ, ◌+ℤ◌}
use ssl_certificate_verifier.Strings.{trim_space}
use ssl_certificate_verifier.Types.{Options, Result, Duration}
use ssl_certificate_verifier.Check.Run.{Environment, check}
use ssl_certificate_verifier.Check.Run.Report.{IsOutcome, check-IsOutcome}
use ssl_certificate_verifier.Gui.{
  CheckRequest, Request, Response, Service, report, bad_request, method_not_allowed, write_json,
  seconds, int64, request_options, answered, check_decoded, check_api,
}

-- The duration of a check: a positive number of seconds, which wraps around, or the default.
abbrev pub IsTimeout : Duration → ℤ → Duration → Type 0
IsTimeout default seconds timeout =
    (ltb_ℤ (pos 0) seconds ≡ false) × (timeout ≡ default)
    ⊎ ((n : ℕ) × (1 ≤ n) × (seconds ≡ pos n) × (timeout ≡ int64 (pos (n * 1000000000))))

-- The options that a request asks for, field by field; the bundle is that of the server.
pub record IsAsked (defaults : Options) (req : CheckRequest) (opt : Options) : Type 0 where
  pub port_is : opt.port ≡ req.port
  pub server_name_is : opt.server_name ≡ trim_space req.server_name
  pub verify_name_is : opt.verify_name ≡ trim_space req.verify_name
  pub tls_min_is : opt.tls_min ≡ trim_space req.tls_min
  pub tls_max_is : opt.tls_max ≡ trim_space req.tls_max
  pub ca_file_is : opt.ca_file ≡ trim_space req.ca_file
  pub ca_bundle_is : opt.ca_bundle_pem ≡ defaults.ca_bundle_pem
  pub no_hostname_is : opt.no_hostname ≡ req.no_hostname
  pub include_pem_is : opt.include_pem ≡ req.include_pem
  pub skip_tls_probe_is : opt.skip_tls_probe ≡ req.skip_tls_probe
  pub skip_dns_is : opt.skip_dns ≡ req.skip_dns
  pub skip_http_is : opt.skip_http ≡ req.skip_http
  pub skip_ciphers_is : opt.skip_ciphers ≡ req.skip_ciphers
  pub force_tls_is : opt.force_tls ≡ req.force_tls
  pub timeout_is : IsTimeout defaults.timeout req.timeout_seconds opt.timeout

seconds-IsTimeout :
    (default : Duration) (n : ℤ)
    → IsTimeout default n (if ltb_ℤ (pos 0) n then seconds n else default)
seconds-IsTimeout default (pos zero) = inl (refl, refl)
seconds-IsTimeout default (pos (suc n)) =
    inr (suc n, omega arith, refl, if_true (ltb_ℤ (pos 0) (pos (suc n))) _ _ (ground arith))
seconds-IsTimeout default (negsuc n) =
    inl (ground arith, if_false (ltb_ℤ (pos 0) (negsuc n)) _ _ (ground arith))

request_options-IsAsked :
    (defaults : Options) (req : CheckRequest) → IsAsked defaults req (request_options defaults req)
unfolding request_options
request_options-IsAsked defaults req = record {
  port_is = refl;
  server_name_is = refl;
  verify_name_is = refl;
  tls_min_is = refl;
  tls_max_is = refl;
  ca_file_is = refl;
  ca_bundle_is = refl;
  no_hostname_is = refl;
  include_pem_is = refl;
  skip_tls_probe_is = refl;
  skip_dns_is = refl;
  skip_http_is = refl;
  skip_ciphers_is = refl;
  force_tls_is = refl;
  timeout_is = seconds-IsTimeout defaults.timeout req.timeout_seconds;
}

-- The duration of the context: two seconds more than that of the check, wrapped around.
abbrev limit_of : Options → Duration
limit_of opt = int64 (opt.timeout +ℤ pos 2000000000)

module _ {World Conn Socket Pool : Type 0} (env : Environment World Conn Socket Pool)
    (service : Service World) (defaults : Options) where
  -- The five answers, by what is wrong with the request first.
  pub data IsAnswer (r : Request) (w : World) : Response → Type 0 where
    wrong_method : r.method ≢ codes "POST" → IsAnswer r w method_not_allowed
    not_decoded :
        (e : Text)
        → r.method ≡ codes "POST"
        → service.decode r.body ≡ inl e
        → IsAnswer r w (bad_request e)
    no_target :
        (req : CheckRequest)
        → r.method ≡ codes "POST"
        → service.decode r.body ≡ inr req
        → trim_space req.target ≡ []
        → IsAnswer r w (bad_request (codes "target is required"))
    refused :
        (req : CheckRequest) (opt : Options) (e : Text)
        → r.method ≡ codes "POST"
        → service.decode r.body ≡ inr req
        → is_empty (trim_space req.target) ≡ false
        → IsAsked defaults req opt
        → (check env req.target opt (service.with_timeout (limit_of opt) w)).0 ≡ err e
        → IsAnswer r w (bad_request e)
    reported :
        (req : CheckRequest) (opt : Options) (result : Result)
        → r.method ≡ codes "POST"
        → service.decode r.body ≡ inr req
        → is_empty (trim_space req.target) ≡ false
        → IsAsked defaults req opt
        → (check env req.target opt (service.with_timeout (limit_of opt) w)).0 ≡ ok result
        → IsAnswer r w (write_json 200 (report result))

  abbrev checks : CheckRequest → Options → World → Outcome Result × World
  checks req opt w = check env req.target opt (service.with_timeout (limit_of opt) w)

  answered-IsAnswer :
      (r : Request) (w : World) (req : CheckRequest) (opt : Options) (o : Outcome Result × World)
      → r.method ≡ codes "POST"
      → service.decode r.body ≡ inr req
      → is_empty (trim_space req.target) ≡ false
      → IsAsked defaults req opt
      → (checks req opt w).0 ≡ o.0
      → o.0 ≢ panic
      → Returns (IsAnswer r w) (answered env service defaults o).0
  answered-IsAnswer r w req opt (ok result, after) post decoded filled asked e returns =
      reported req opt result post decoded filled asked e
  answered-IsAnswer r w req opt (err message, after) post decoded filled asked e returns =
      refused req opt message post decoded filled asked e
  answered-IsAnswer r w req opt (panic, after) post decoded filled asked e returns =
      absurd (returns refl)

  no_panic :
      (input : Text) (opt : Options) (w : World) (o : Outcome Result × World)
      → IsOutcome env input opt w o
      → o.0 ≢ panic
  no_panic input opt w (ok result, after) outcome e = cc
  no_panic input opt w (err message, after) outcome e = cc
  no_panic input opt w (panic, after) (inl (message, planned, o)) e = cc
  no_panic input opt w (panic, after) (inr (p, planned, is_plan, h)) e = h

  empty-nil : (s : Text) → is_empty s ≡ true → s ≡ []
  empty-nil [] h = refl
  empty-nil (c ∷ s) h = cc

  either :
      (P : Response → Type 0) (b : Bool) (x y : Outcome Response × World)
      → (b ≡ true → Returns P x.0)
      → (b ≡ false → Returns P y.0)
      → Returns P (if b then x else y).0
  either P true x y h k = h refl
  either P false x y h k = k refl

  check_decoded-IsAnswer :
      (r : Request) (w : World) (d : Text ⊎ CheckRequest)
      → ((text : Text) → env.syntax.parse_url text ≢ panic)
      → r.method ≡ codes "POST"
      → service.decode r.body ≡ d
      → Returns (IsAnswer r w) (check_decoded env service defaults d w).0
  check_decoded-IsAnswer r w (inl e) returns post decoded = not_decoded e post decoded
  check_decoded-IsAnswer r w (inr req) returns post decoded =
      let opt = request_options defaults req in
      either (IsAnswer r w) (is_empty (trim_space req.target)) _ _
        (λ blank. no_target req post decoded (empty-nil (trim_space req.target) blank))
        (λ filled.
          answered-IsAnswer r w req opt (checks req opt w) post decoded filled
            (request_options-IsAsked defaults req) refl
            (no_panic req.target opt _ (checks req opt w)
              (check-IsOutcome env req.target opt _ (returns (trim_space req.target)))))

  not-false : (b : Bool) → not b ≡ false → b ≡ true
  not-false b h = ground arith

pub check_api-IsAnswer :
    {World Conn Socket Pool : Type 0} (env : Environment World Conn Socket Pool)
    (service : Service World) (defaults : Options) (r : Request) (w : World)
    → ((text : Text) → env.syntax.parse_url text ≢ panic)
    → Returns (IsAnswer env service defaults r w) (check_api env service defaults r w).0
unfolding check_api
check_api-IsAnswer env service defaults r w returns =
    either env service defaults (IsAnswer env service defaults r w)
      (not (str_eq r.method (codes "POST"))) _ _
      (λ other. wrong_method λ e. ground (arith, other, (str_eq_iff r.method (codes "POST")).1 e))
      (λ post.
        check_decoded-IsAnswer env service defaults r w (service.decode r.body) returns
          ((str_eq_iff r.method (codes "POST")).0 (not-false env service defaults _ post)) refl)
