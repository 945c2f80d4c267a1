-- ===== src/Check/Http.antt =====
-- internal/checker/check.go: `checkHTTP`. The HTTP client is a parameter over a type of states of
-- the world; the context belongs to that state.
pub mod Laws
use ssl_certificate_verifier.Base.{
  Bool, true, false, not, ◌&&◌, List, [], ◌∷◌, ◌++◌, if◌then◌else◌, Text, codes, str_eq, is_empty,
  Option, none, some, ◌⊎◌, inl, inr,
}
use ssl_certificate_verifier.Base.Int.{ℤ}
use ssl_certificate_verifier.Strings.{to_lower, has_prefix}
use ssl_certificate_verifier.Types.{Options, Target, Result, HttpInfo, Header, Duration}
use ssl_certificate_verifier.Tls.Names.{sni_name, normalize_timeout}
use ssl_certificate_verifier.Tls.ShortError.{short_error}
use ssl_certificate_verifier.Tls.Connect.{protocols}
use ssl_certificate_verifier.Headers.{
  header_get, clone_header, analyze_http_headers, is_https_location,
}

-- `tls.Config` of the transport: the name, no verification, and the protocols.
pub record TransportConfig : Type 0 where
  pub server_name : Text
  pub insecure_skip_verify : Bool
  pub next_protos : List Text

-- `http.Client` with its transport, which follows no redirect; no configuration stands for `nil`.
pub record ClientConfig : Type 0 where
  pub timeout : Duration
  pub force_attempt_http2 : Bool
  pub tls : Option TransportConfig

-- A request without a body; an empty `host` leaves the one of the URL.
pub record HttpRequest : Type 0 where
  pub method : Text
  pub url : Text
  pub user_agent : Text
  pub host : Text

pub record HttpResponse : Type 0 where
  pub status : Text
  pub status_code : ℤ
  pub header : Header

-- `bad_request` is the error of `http.NewRequestWithContext`, `context_error` that of `ctx.Err()`.
pub record HttpClient (World : Type 0) : Type 0 where
  pub bad_request : Text → Text → Option Text
  pub send : ClientConfig → HttpRequest → World → (Text ⊎ HttpResponse) × World
  pub context_error : World → Option Text
  pub close_body : World → World
  pub close_idle : World → World

abbrev target_url : Target → Text
target_url target = target.scheme ++ (codes "://" ++ (target.address ++ target.path))

abbrev pub is_scheme : Text → Target → Bool
is_scheme scheme target = str_eq target.scheme scheme

abbrev transport_config : Target → Options → TransportConfig
transport_config target opt = record {
  server_name = sni_name target opt;
  insecure_skip_verify = true;
  next_protos = protocols;
}

abbrev client_config : Target → Options → ClientConfig
client_config target opt = record {
  timeout = normalize_timeout opt.timeout;
  force_attempt_http2 = true;
  tls = if is_scheme (codes "https") target then some (transport_config target opt) else none;
}

abbrev http_request : Target → Options → Text → HttpRequest
http_request target opt method = record {
  method = method;
  url = target_url target;
  user_agent = codes "sslcertcheck/0.1";
  host = if target.is_ip && not (is_empty (sni_name target opt)) then sni_name target opt else [];
}

-- `Attempted`, `Plaintext` and `URL`.
abbrev attempted : Target → Result → Result
attempted target r = record r {
  http = record r.http {
    attempted = true;
    plaintext = is_scheme (codes "http") target;
    url = target_url target;
  };
}

abbrev http_failed : Result → Text → Result
http_failed r e = record r {
  http = record r.http { error = short_error (some e) };
  errors = r.errors ++ (codes "http: " ++ short_error (some e)) ∷ [];
}

abbrev reached : HttpInfo → HttpResponse → HttpInfo
reached http resp =
    let location = header_get resp.header (codes "Location") in
    record http {
      reachable = true;
      status = resp.status;
      status_code = resp.status_code;
      server = header_get resp.header (codes "Server");
      content_type = header_get resp.header (codes "Content-Type");
      redirect_location = location;
      https_redirect = http.plaintext && is_https_location location;
      headers = clone_header resp.header;
      security_headers = analyze_http_headers resp.header http.plaintext resp.status_code location;
    }

module _ {World : Type 0} (client : HttpClient World) (target : Target) (opt : Options) where
  abbrev send_get : Text → World → Option Text → (Text ⊎ HttpResponse) × World
  send_get e w none =
      client.send (client_config target opt) (http_request target opt (codes "GET")) w
  send_get e w (some bad) = (inl e, w)

  -- The second request, if the first has failed and the context is not done.
  abbrev retry : Text → World → Option Text → (Text ⊎ HttpResponse) × World
  retry e w none = send_get e w (client.bad_request (codes "GET") (target_url target))
  retry e w (some done) = (inl e, w)

  abbrev retried : (Text ⊎ HttpResponse) × World → (Text ⊎ HttpResponse) × World
  retried (inl e, w) = retry e w (client.context_error w)
  retried (inr resp, w) = (inr resp, w)

  -- The report, and the deferred calls.
  abbrev responded : Result → (Text ⊎ HttpResponse) × World → Result × World
  responded r (inl e, w) = (http_failed r e, client.close_idle w)
  responded r (inr resp, w) =
      (record r { http = reached r.http resp }, client.close_idle (client.close_body w))

  abbrev requested : Result → World → Option Text → Result × World
  requested r w (some e) = (http_failed r e, client.close_idle w)
  requested r w none =
      responded r (
        retried (client.send (client_config target opt) (http_request target opt (codes "HEAD")) w))

  unfoldable pub check_http : Result → World → Result × World
  check_http r w =
      requested (attempted target r) w (client.bad_request (codes "HEAD") (target_url target))

-- Exported for documentation and tests.
unfoldable pub default_port : Text → Text
default_port scheme = if str_eq scheme (codes "http") then codes "80" else codes "443"
