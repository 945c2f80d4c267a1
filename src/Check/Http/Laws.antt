-- ===== src/Check/Http/Laws.antt =====
-- What `checkHTTP` makes of a report, and of the connections.
use ssl_certificate_verifier.Base.{
  not, if◌then◌else◌, is_empty, str_eq, ℕ, suc, ◌+◌, ◌≤◌, ◌≡◌, refl, ◌∙◌, arith, true, ◌&&◌, List,
  [], ◌∷◌, ◌++◌, Text, codes, Option, none, some, ◌⊎◌, inl, inr,
}
use ssl_certificate_verifier.Types.{Options, Target, Result, HttpInfo}
use ssl_certificate_verifier.Tls.Names.{sni_name, normalize_timeout}
use ssl_certificate_verifier.Tls.ShortError.{short_error}
use ssl_certificate_verifier.Tls.Probe.Closed.{opened}
use ssl_certificate_verifier.Headers.{header_get, analyze_http_headers, is_https_location}
use ssl_certificate_verifier.Check.Http.{
  HttpClient, HttpRequest, HttpResponse, ClientConfig, http_request, is_scheme, attempted, send_get,
  retry, retried, responded, requested, check_http,
}

-- All but the HTTP part and the errors are as before.
pub record KeepsOthers (before after : Result) : Type 0 where
  pub input_is : after.input ≡ before.input
  pub target_is : after.target ≡ before.target
  pub checked_at_is : after.checked_at ≡ before.checked_at
  pub protocol_is : after.protocol ≡ before.protocol
  pub tls_is : after.tls ≡ before.tls
  pub dns_is : after.dns ≡ before.dns
  pub verification_is : after.verification ≡ before.verification
  pub certificates_are : after.certificates ≡ before.certificates
  pub warnings_are : after.warnings ≡ before.warnings

-- The URL, the client and the request of a check.
abbrev url_of : Target → Text
url_of target = target.scheme ++ (codes "://" ++ (target.address ++ target.path))

abbrev client_of : Target → Options → ClientConfig
client_of target opt = record {
  timeout = normalize_timeout opt.timeout;
  force_attempt_http2 = true;
  tls =
      if str_eq target.scheme (codes "https")
      then some (record {
        server_name = sni_name target opt;
        insecure_skip_verify = true;
        next_protos = codes "h2" ∷ codes "http/1.1" ∷ [];
      })
      else none;
}

abbrev request_of : Target → Options → Text → HttpRequest
request_of target opt method = record {
  method = method;
  url = url_of target;
  user_agent = codes "sslcertcheck/0.1";
  host = if target.is_ip && not (is_empty (sni_name target opt)) then sni_name target opt else [];
}

-- What the client gives in the state `w`: the request with HEAD has no form, it has a response, or
-- it fails; then the context is done, or the request with GET has no form, and that error stays, or
-- the one with GET is sent, and gives what the client gives for it.
pub data Answers {World : Type 0} (client : HttpClient World) (target : Target) (opt : Options)
    (w : World) : Text ⊎ HttpResponse → Type 0 where
  no_head :
      (e : Text)
      → client.bad_request (codes "HEAD") (url_of target) ≡ some e
      → Answers client target opt w (inl e)
  head_answered :
      (resp : HttpResponse) (w1 : World)
      → client.bad_request (codes "HEAD") (url_of target) ≡ none
      → client.send (client_of target opt) (request_of target opt (codes "HEAD")) w ≡ (inr resp, w1)
      → Answers client target opt w (inr resp)
  context_done :
      (e done : Text) (w1 : World)
      → client.bad_request (codes "HEAD") (url_of target) ≡ none
      → client.send (client_of target opt) (request_of target opt (codes "HEAD")) w ≡ (inl e, w1)
      → client.context_error w1 ≡ some done
      → Answers client target opt w (inl e)
  no_get :
      (e bad : Text) (w1 : World)
      → client.bad_request (codes "HEAD") (url_of target) ≡ none
      → client.send (client_of target opt) (request_of target opt (codes "HEAD")) w ≡ (inl e, w1)
      → client.context_error w1 ≡ none
      → client.bad_request (codes "GET") (url_of target) ≡ some bad
      → Answers client target opt w (inl e)
  get_sent :
      (e : Text) (w1 : World)
      → client.bad_request (codes "HEAD") (url_of target) ≡ none
      → client.send (client_of target opt) (request_of target opt (codes "HEAD")) w ≡ (inl e, w1)
      → client.context_error w1 ≡ none
      → client.bad_request (codes "GET") (url_of target) ≡ none
      → Answers client target opt w
          (client.send (client_of target opt) (request_of target opt (codes "GET")) w1).0

-- The two outcomes for a report, by what the client gives: an error, which is listed, and a
-- response, whose headers are analysed as those of a plain response just if the scheme is http.
pub data IsRequested {World : Type 0} (client : HttpClient World) (target : Target) (opt : Options)
    (w : World) (before after : Result) : Type 0 where
  failed :
      (e : Text)
      → Answers client target opt w (inl e)
      → after.http.reachable ≡ before.http.reachable
      → after.http.error ≡ short_error (some e)
      → after.errors ≡ before.errors ++ (codes "http: " ++ short_error (some e)) ∷ []
      → IsRequested client target opt w before after
  reached :
      (resp : HttpResponse)
      → Answers client target opt w (inr resp)
      → after.http.reachable ≡ true
      → after.http.status ≡ resp.status
      → after.http.status_code ≡ resp.status_code
      → after.http.server ≡ header_get resp.header (codes "Server")
      → after.http.content_type ≡ header_get resp.header (codes "Content-Type")
      → after.http.redirect_location ≡ header_get resp.header (codes "Location")
      → after.http.https_redirect ≡ (
          is_scheme (codes "http") target
          && is_https_location (header_get resp.header (codes "Location")))
      → after.http.security_headers
        ≡ analyze_http_headers resp.header
            (is_scheme (codes "http") target)
            resp.status_code
            (header_get resp.header (codes "Location"))
      → after.errors ≡ before.errors
      → IsRequested client target opt w before after

-- What `checkHTTP` has done to a report.
pub record IsHttpChecked {World : Type 0} (client : HttpClient World) (target : Target)
    (opt : Options) (w : World) (before after : Result) : Type 0 where
  pub attempted_is : after.http.attempted ≡ true
  pub plaintext_is : after.http.plaintext ≡ is_scheme (codes "http") target
  pub url_is : after.http.url ≡ url_of target
  pub outcome_is : IsRequested client target opt w before after
  pub others_are : KeepsOthers before after

keeps :
    (before : Result) (http : HttpInfo) (errors : List Text)
    → KeepsOthers before (record before { http = http; errors = errors })
keeps before http errors = record {
  input_is = refl;
  target_is = refl;
  checked_at_is = refl;
  protocol_is = refl;
  tls_is = refl;
  dns_is = refl;
  verification_is = refl;
  certificates_are = refl;
  warnings_are = refl;
}

-- The requests that are sent, and the bodies of responses that are open: sending is a request, and
-- opens a body if there is a response; closing a body closes one; the rest changes neither.
pub record Counts {World : Type 0} (client : HttpClient World) (sent open_bodies : World → ℕ)
    : Type 0 where
  pub send_counts :
      (cfg : ClientConfig) (req : HttpRequest) (w : World)
      → sent (client.send cfg req w).1 ≡ suc (sent w)
  pub send_opens :
      (cfg : ClientConfig) (req : HttpRequest) (w : World)
      → open_bodies (client.send cfg req w).1 ≡ opened (client.send cfg req w).0 (open_bodies w)
  pub body_counts : (w : World) → sent (client.close_body w) ≡ sent w
  pub body_closes :
      (w : World) (n : ℕ) → open_bodies w ≡ suc n → open_bodies (client.close_body w) ≡ n
  pub idle_counts : (w : World) → sent (client.close_idle w) ≡ sent w
  pub idle_keeps : (w : World) → open_bodies (client.close_idle w) ≡ open_bodies w

module _ {World : Type 0} (client : HttpClient World) (target : Target) (opt : Options) where
  responded-IsHttpChecked :
      (r : Result) (w : World) (o : (Text ⊎ HttpResponse) × World)
      → Answers client target opt w o.0
      → IsHttpChecked client target opt w r (responded client target opt (attempted target r) o).0
  responded-IsHttpChecked r w (inl e, w1) answers = record {
    attempted_is = refl;
    plaintext_is = refl;
    url_is = refl;
    outcome_is = failed e answers refl refl refl;
    others_are = keeps r _ _;
  }
  responded-IsHttpChecked r w (inr resp, w1) answers = record {
    attempted_is = refl;
    plaintext_is = refl;
    url_is = refl;
    outcome_is = reached resp answers refl refl refl refl refl refl refl refl refl;
    others_are = keeps r _ _;
  }

  send_get-Answers :
      (e : Text) (w w1 : World) (bad : Option Text)
      → client.bad_request (codes "HEAD") (url_of target) ≡ none
      → client.send (client_of target opt) (request_of target opt (codes "HEAD")) w ≡ (inl e, w1)
      → client.context_error w1 ≡ none
      → client.bad_request (codes "GET") (url_of target) ≡ bad
      → Answers client target opt w (send_get client target opt e w1 bad).0
  send_get-Answers e w w1 none good sent going h = get_sent e w1 good sent going h
  send_get-Answers e w w1 (some bad) good sent going h = no_get e bad w1 good sent going h

  retry-Answers :
      (e : Text) (w w1 : World) (done : Option Text)
      → client.bad_request (codes "HEAD") (url_of target) ≡ none
      → client.send (client_of target opt) (request_of target opt (codes "HEAD")) w ≡ (inl e, w1)
      → client.context_error w1 ≡ done
      → Answers client target opt w (retry client target opt e w1 done).0
  retry-Answers e w w1 none good sent h = send_get-Answers e w w1 _ good sent h refl
  retry-Answers e w w1 (some done) good sent h = context_done e done w1 good sent h

  retried-Answers :
      (w : World) (o : (Text ⊎ HttpResponse) × World)
      → client.bad_request (codes "HEAD") (url_of target) ≡ none
      → client.send (client_of target opt) (request_of target opt (codes "HEAD")) w ≡ o
      → Answers client target opt w (retried client target opt o).0
  retried-Answers w (inl e, w1) good sent = retry-Answers e w w1 _ good sent refl
  retried-Answers w (inr resp, w1) good sent = head_answered resp w1 good sent

  requested-IsHttpChecked :
      (r : Result) (w : World) (bad : Option Text)
      → client.bad_request (codes "HEAD") (url_of target) ≡ bad
      → IsHttpChecked client target opt w r
          (requested client target opt (attempted target r) w bad).0
  requested-IsHttpChecked r w (some e) h = record {
    attempted_is = refl;
    plaintext_is = refl;
    url_is = refl;
    outcome_is = failed e (no_head e h) refl refl refl;
    others_are = keeps r _ _;
  }
  requested-IsHttpChecked r w none h = responded-IsHttpChecked r w _ (retried-Answers w _ h refl)

-- `checkHTTP` marks the request as attempted, with the URL of the target, and as plain just if the
-- scheme is http. It sends HEAD, and, if that fails and the context is not done, GET. Then either
-- that has failed, with its error as one error more, or the client has given a response: the
-- status, the server, the type, the redirect and the checks of the headers are those of that
-- response. All else stays.
pub check_http-IsHttpChecked :
    {World : Type 0} (client : HttpClient World) (target : Target) (opt : Options) (r : Result)
    (w : World)
    → IsHttpChecked client target opt w r (check_http client target opt r w).0
unfolding check_http
check_http-IsHttpChecked client target opt r w =
    requested-IsHttpChecked client target opt r w _ refl

module _ {World : Type 0} (client : HttpClient World) (sent open_bodies : World → ℕ)
    (counts : Counts client sent open_bodies) (target : Target) (opt : Options) where
  -- At most two requests after `w`, and as many bodies as the outcome opens.
  abbrev Within : World → (Text ⊎ HttpResponse) × World → Type 0
  Within w o = (sent o.1 ≤ sent w + 2) × (open_bodies o.1 ≡ opened o.0 (open_bodies w))

  send_get-Within :
      (e : Text) (w w' : World) (bad : Option Text)
      → sent w' ≡ suc (sent w)
      → open_bodies w' ≡ open_bodies w
      → Within w (send_get client target opt e w' bad)
  send_get-Within e w w' none h k = (
    omega (arith, counts.send_counts _ (http_request target opt (codes "GET")) w'),
    rw (← k) (counts.send_opens _ _ w'),
  )
  send_get-Within e w w' (some bad) h k = (omega arith, k)

  retry-Within :
      (e : Text) (w w' : World) (done : Option Text)
      → sent w' ≡ suc (sent w)
      → open_bodies w' ≡ open_bodies w
      → Within w (retry client target opt e w' done)
  retry-Within e w w' none h k = send_get-Within e w w' _ h k
  retry-Within e w w' (some done) h k = (omega arith, k)

  retried-Within :
      (w : World) (o : (Text ⊎ HttpResponse) × World)
      → sent o.1 ≡ suc (sent w)
      → open_bodies o.1 ≡ opened o.0 (open_bodies w)
      → Within w (retried client target opt o)
  retried-Within w (inl e, w') h k = retry-Within e w w' _ h k
  retried-Within w (inr resp, w') h k = (omega arith, k)

  responded-Within :
      (r : Result) (w : World) (o : (Text ⊎ HttpResponse) × World)
      → Within w o
      → (sent (responded client target opt r o).1 ≤ sent w + 2)
        × (open_bodies (responded client target opt r o).1 ≡ open_bodies w)
  responded-Within r w (inl e, w') (h, k) =
      (omega (arith, counts.idle_counts w'), counts.idle_keeps w' ∙ k)
  responded-Within r w (inr resp, w') (h, k) = (
    omega (arith, counts.idle_counts (client.close_body w'), counts.body_counts w'),
    counts.idle_keeps (client.close_body w') ∙ counts.body_closes w' (open_bodies w) k,
  )

  requested-Within :
      (r : Result) (w : World) (bad : Option Text)
      → (sent (requested client target opt r w bad).1 ≤ sent w + 2)
        × (open_bodies (requested client target opt r w bad).1 ≡ open_bodies w)
  requested-Within r w (some e) = (omega (arith, counts.idle_counts w), counts.idle_keeps w)
  requested-Within r w none = responded-Within r w _ (
      retried-Within w _ (counts.send_counts _ (http_request target opt (codes "HEAD")) w)
        (counts.send_opens _ _ w))

-- `checkHTTP` sends two requests at most, and leaves as many bodies of responses open as it found,
-- on every path, if a call of the client is one request and opens a body just if there is a
-- response, and closing a body closes one.
pub check_http-requests :
    {World : Type 0} (client : HttpClient World) (sent open_bodies : World → ℕ) (target : Target)
    (opt : Options) (r : Result) (w : World)
    → Counts client sent open_bodies
    → (sent (check_http client target opt r w).1 ≤ sent w + 2)
      × (open_bodies (check_http client target opt r w).1 ≡ open_bodies w)
unfolding check_http
check_http-requests client sent open_bodies target opt r w counts =
    requested-Within client sent open_bodies counts target opt (attempted target r) w _
