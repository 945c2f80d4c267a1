-- ===== src/Tests/Run.antt =====
-- internal/checker/check.go: `Check` and `checkHTTP` against a server with one certificate. The
-- state is the number of requests, and of bodies of responses that are open.
use ssl_certificate_verifier.Base.{
  ℕ, suc, ◌+◌, ◌-◌, ◌≤◌, ◌≡◌, ◌≢◌, refl, arith, Bool, true, false, List, [], ◌∷◌, Text, codes,
  str_eq, none, some, ◌⊎◌, inl, inr, ok, panic, Returns, Safely,
}
use ssl_certificate_verifier.Base.Int.{pos}
use ssl_certificate_verifier.Strings.{text_runs, trim_space}
use ssl_certificate_verifier.Types.{empty_options}
use ssl_certificate_verifier.Target.{
  all_digits, split_at_colon, split_suffix, split_bracketed, split_forms, split_host_port_loose,
  parse_bare_target, finish_target, parse_target,
}
use ssl_certificate_verifier.Target.Safe.{parse_target-Safely}
use ssl_certificate_verifier.Tls.Version.{tls_version_value}
use ssl_certificate_verifier.Tls.Connect.{Network}
use ssl_certificate_verifier.Tls.Probe.Closed.{opened}
use ssl_certificate_verifier.Dns.Lookup.{Datagrams}
use ssl_certificate_verifier.Dns.Check.{Resolver}
use ssl_certificate_verifier.X509.{Certificate}
use ssl_certificate_verifier.Check.Http.{HttpClient, HttpResponse, check_http}
use ssl_certificate_verifier.Check.Http.Laws.{
  IsHttpChecked, Counts, check_http-IsHttpChecked, check_http-requests,
}
use ssl_certificate_verifier.Check.Run.{Environment, Plan, plan, is_plain, with_timeout, check}
use ssl_certificate_verifier.Check.Run.Equivalence.{check_direct, check-direct}
use ssl_certificate_verifier.Check.Run.Report.{
  IsOutcome, IsVerifiedPeer, looked_up, check-IsOutcome, check-IsVerifiedPeer,
}
use ssl_certificate_verifier.Tests.Cert.{x509, certificate}
use ssl_certificate_verifier.Tests.Verify.{verifier, target}
use ssl_certificate_verifier.Tests.Security.{report}
use ssl_certificate_verifier.Tests.Target.{syntax}

abbrev Requests : Type 0
Requests = ℕ × ℕ

-- A server that rejects HEAD, and answers GET.
abbrev response : HttpResponse
response = record { status = codes "200 OK"; status_code = pos 200; header = [] }

abbrev answered : Bool → Requests → (Text ⊎ HttpResponse) × Requests
answered true (sent, bodies) = (inl (codes "EOF"), (suc sent, bodies))
answered false (sent, bodies) = (inr response, (suc sent, suc bodies))

abbrev client : HttpClient Requests
client = record {
  bad_request = λ method url. none;
  send = λ cfg req w. answered (str_eq req.method (codes "HEAD")) w;
  context_error = λ w. none;
  close_body = λ w. (w.0, w.1 - 1);
  close_idle = λ w. w;
}

answered-counts : (b : Bool) (w : Requests) → (answered b w).1.0 ≡ suc w.0
answered-counts true w = refl
answered-counts false w = refl

answered-opens : (b : Bool) (w : Requests) → (answered b w).1.1 ≡ opened (answered b w).0 w.1
answered-opens true w = refl
answered-opens false w = refl

client-Counts : Counts client (λ w. w.0) (λ w. w.1)
client-Counts = record {
  send_counts = λ cfg req w. answered-counts (str_eq req.method (codes "HEAD")) w;
  send_opens = λ cfg req w. answered-opens (str_eq req.method (codes "HEAD")) w;
  body_counts = λ w. refl;
  body_closes = λ w n h. omega arith;
  idle_counts = λ w. refl;
  idle_keeps = λ w. refl;
}

check_http-IsHttpChecked_example :
    IsHttpChecked client target empty_options
      (0, 0)
      report
      (check_http client target empty_options report (0, 0)).0
check_http-IsHttpChecked_example =
    check_http-IsHttpChecked client target empty_options report (0, 0)

-- Both methods are sent.
sends_twice : (check_http client target empty_options report (0, 0)).1 ≡ (2, 0)
unfolding check_http text_runs
sends_twice = refl

check_http-requests_example :
    ((check_http client target empty_options report (4, 1)).1.0 ≤ 4 + 2)
    × ((check_http client target empty_options report (4, 1)).1.1 ≡ 1)
check_http-requests_example =
    check_http-requests client (λ w. w.0) (λ w. w.1) target empty_options report (4, 1)
      client-Counts

abbrev network : Network Requests (Unit {0})
network = record {
  now = λ w. pos 15;
  dial = λ timeout address w. (inr tt, w);
  set_deadline = λ conn t w. w;
  handshake = λ conn cfg w. (none, w);
  connection_state = λ conn w. record {
    version = 0x0303;
    cipher_suite = 0xc013;
    negotiated_protocol = [];
    ocsp_response = [];
    signed_certificate_timestamps = [];
    peer_certificates = certificate ∷ [];
  };
  close = λ conn w. w;
  cipher_suite_name = λ id. codes "suite";
  all_suites = [];
  insecure_suites = [];
}

abbrev datagrams : Datagrams Requests (Unit {0})
datagrams = record {
  is_ip = λ host. false;
  read_file = λ name w. (([], some (codes "no such file")), w);
  random = λ w. (some (1, 2), w);
  now_nanos = λ w. 0;
  dial = λ network server w. (inl (codes "refused"), w);
  set_deadline = λ conn w. w;
  write = λ conn query w. (none, w);
  read = λ conn size w. (inl (codes "closed"), w);
  close = λ conn w. w;
}

abbrev resolver : Resolver Requests
resolver = record {
  with_timeout = λ d w. w;
  cancel = λ w. w;
  lookup_addr = λ host w. (inl (codes "no such host"), w);
  lookup_cname = λ host w. (inr host, w);
  lookup_ip = λ network host w. (inl (codes "no such host"), w);
}

abbrev pub env : Environment Requests (Unit {0}) (Unit {0}) (List Certificate)
env = record {
  x509 = x509;
  verifier = verifier;
  network = network;
  datagrams = datagrams;
  resolver = resolver;
  client = client;
  syntax = syntax;
}

check-direct_example :
    check env (codes "a.b") empty_options (0, 0)
    ≡ check_direct env (codes "a.b") empty_options (0, 0)
check-direct_example = check-direct env (codes "a.b") empty_options (0, 0)

url_read : syntax.parse_url (trim_space (codes "a.b")) ≢ panic
url_read e = cc

check-IsOutcome_example :
    IsOutcome env (codes "a.b") empty_options (0, 0) (check env (codes "a.b") empty_options (0, 0))
check-IsOutcome_example = check-IsOutcome env (codes "a.b") empty_options (0, 0) url_read

parse_target-Safely_example :
    Safely (λ t. Unit) (parse_target syntax (codes "a.b:99999") empty_options)
parse_target-Safely_example = parse_target-Safely syntax (codes "a.b:99999") empty_options λ e. cc

abbrev planned : Plan
planned = record {
  opt = with_timeout empty_options;
  min_version = 0;
  max_version = 0;
  target = target;
}

is_planned : plan syntax (codes "a.b") empty_options ≡ ok planned
unfolding plan tls_version_value all_digits split_at_colon split_suffix split_bracketed split_forms
    split_host_port_loose parse_bare_target finish_target parse_target text_runs
is_planned = refl

over_tls : is_plain planned ≡ false
unfolding text_runs
over_tls = refl

check-IsVerifiedPeer_example :
    Returns
      (λ r.
        (r.security.local_grade ≡ codes "F")
        ⊎ IsVerifiedPeer env planned (pos 15) (looked_up env (codes "a.b") planned (0, 0)) r)
      (check env (codes "a.b") empty_options (0, 0)).0
check-IsVerifiedPeer_example =
    check-IsVerifiedPeer env (codes "a.b") empty_options (0, 0) planned is_planned over_tls
