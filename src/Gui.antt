-- ===== src/Gui.antt =====
-- internal/gui/server.go: the handlers. The decoder of JSON and the context of a request are
-- parameters, over the type of states of the world that the environment of `Check` has.
pub mod Answer
pub mod Secured
use ssl_certificate_verifier.Base.{
  ℕ, ◌+◌, ◌-◌, ◌*◌, ◌%◌, ◌^◌, ltb, Bool, true, false, not, List, [], ◌∷◌, ◌++◌, if◌then◌else◌, Text,
  codes, str_eq, is_empty, ◌⊎◌, inl, inr, Outcome, ok, err, panic,
}
use ssl_certificate_verifier.Base.Int.{ℤ, pos, negsuc, ltb_ℤ, ◌+ℤ◌}
use ssl_certificate_verifier.Strings.{trim_space}
use ssl_certificate_verifier.Types.{Options, Result, Header, Bytes, Duration}
use ssl_certificate_verifier.Check.Run.{Environment, check}

-- The body of a request to check a target.
pub record CheckRequest : Type 0 where
  pub target : Text
  pub port : ℤ
  pub server_name : Text
  pub verify_name : Text
  pub timeout_seconds : ℤ
  pub tls_min : Text
  pub tls_max : Text
  pub ca_file : Text
  pub no_hostname : Bool
  pub include_pem : Bool
  pub skip_tls_probe : Bool
  pub skip_dns : Bool
  pub skip_http : Bool
  pub skip_ciphers : Bool
  pub force_tls : Bool

-- What the handlers read of a request; the path is clean.
pub record Request : Type 0 where
  pub method : Text
  pub path : Text
  pub body : Bytes

-- What is sent: a text, the page, `{"ok":true}`, an object with an error, or a report.
pub data Body : Type 0 where
  plain : Text → Body
  page : Body
  healthy : Body
  error_object : Text → Body
  report : Result → Body

pub record Response : Type 0 where
  pub status : ℕ
  pub header : Header
  pub body : Body

-- The decoder gives an error or the request; the others are those of the context with a timeout.
pub record Service (World : Type 0) : Type 0 where
  pub decode : Bytes → Text ⊎ CheckRequest
  pub with_timeout : Duration → World → World
  pub cancel : World → World

abbrev header_line : Text → Text → Header
header_line name value = (name, value ∷ []) ∷ []

-- `http.Error`.
abbrev pub http_error : Text → ℕ → Response
http_error text status = record {
  status = status;
  header =
      header_line (codes "Content-Type") (codes "text/plain; charset=utf-8")
      ++ header_line (codes "X-Content-Type-Options") (codes "nosniff");
  body = plain text;
}

abbrev pub write_json : ℕ → Body → Response
write_json status body = record {
  status = status;
  header = header_line (codes "Content-Type") (codes "application/json; charset=utf-8");
  body = body;
}

abbrev pub bad_request : Text → Response
bad_request e = write_json 400 (error_object e)

abbrev pub method_not_allowed : Response
method_not_allowed = http_error (codes "POST required") 405

abbrev pub index_page : Response
index_page = record {
  status = 200;
  header = header_line (codes "Content-Type") (codes "text/html; charset=utf-8");
  body = page;
}

unfoldable pub index : Request → Response
index r =
    if not (str_eq r.path (codes "/"))
    then http_error (codes "404 page not found") 404
    else index_page

abbrev pub health : Response
health = record {
  status = 200;
  header = header_line (codes "Content-Type") (codes "application/json");
  body = healthy;
}

-- A 64-bit integer, wrapped around.
unfoldable pub int64 : ℤ → ℤ
int64 (pos n) = let m = n % 2 ^ 64 in if ltb m (2 ^ 63) then pos m else negsuc (2 ^ 64 - 1 - m)
int64 (negsuc n) = let m = n % 2 ^ 64 in if ltb m (2 ^ 63) then negsuc m else pos (2 ^ 64 - 1 - m)

-- `time.Duration(n) * time.Second`, for an n that is not negative.
abbrev pub seconds : ℤ → Duration
seconds (pos n) = int64 (pos (n * 1000000000))
seconds (negsuc n) = negsuc n

unfoldable pub request_options : Options → CheckRequest → Options
request_options defaults req = record defaults {
  port = req.port;
  server_name = trim_space req.server_name;
  verify_name = trim_space req.verify_name;
  tls_min = trim_space req.tls_min;
  tls_max = trim_space req.tls_max;
  ca_file = trim_space req.ca_file;
  no_hostname = req.no_hostname;
  include_pem = req.include_pem;
  skip_tls_probe = req.skip_tls_probe;
  skip_dns = req.skip_dns;
  skip_http = req.skip_http;
  skip_ciphers = req.skip_ciphers;
  force_tls = req.force_tls;
  timeout =
      if ltb_ℤ (pos 0) req.timeout_seconds then seconds req.timeout_seconds else defaults.timeout;
}

-- The headers that are set before the next handler runs.
abbrev pub secure_header_list : Header
secure_header_list =
    header_line (codes "Content-Security-Policy") (
      codes
        "default-src 'self'; script-src 'self' 'unsafe-inline'; style-src 'self' 'unsafe-inline'; img-src 'self' data:; connect-src 'self'; base-uri 'none'; frame-ancestors 'none'")
    ++ (header_line (codes "X-Content-Type-Options") (codes "nosniff")
        ++ header_line (codes "X-Frame-Options") (codes "DENY"))

-- `Set` of a header whose names are in their canonical form.
unfoldable pub set_line : Text → List Text → Header → Header
set_line name values [] = (name, values) ∷ []
set_line name values ((key, old) ∷ header) =
    if str_eq key name then (key, values) ∷ header else (key, old) ∷ set_line name values header

-- What stands in the second header is set in the first.
unfoldable pub set_all : Header → Header → Header
set_all header [] = header
set_all header ((name, values) ∷ lines) = set_all (set_line name values header) lines

unfoldable pub secure_headers : Outcome Response → Outcome Response
secure_headers (ok r) = ok (record r { header = set_all secure_header_list r.header })
secure_headers (err e) = err e
secure_headers panic = panic

module _ {World Conn Socket Pool : Type 0} (env : Environment World Conn Socket Pool)
    (service : Service World) (defaults : Options) where
  -- The deferred `cancel`, and the answer to what `Check` gives.
  abbrev pub answered : Outcome Result × World → Outcome Response × World
  answered (ok r, w) = (ok (write_json 200 (report r)), service.cancel w)
  answered (err e, w) = (ok (bad_request e), service.cancel w)
  answered (panic, w) = (panic, service.cancel w)

  abbrev pub check_decoded : Text ⊎ CheckRequest → World → Outcome Response × World
  check_decoded (inl e) w = (ok (bad_request e), w)
  check_decoded (inr req) w =
      let opt = request_options defaults req in
      let limit = int64 (opt.timeout +ℤ pos 2000000000) in
      let checked = check env req.target opt (service.with_timeout limit w) in
      if is_empty (trim_space req.target)
      then (ok (bad_request (codes "target is required")), w)
      else answered checked

  unfoldable pub check_api : Request → World → Outcome Response × World
  check_api r w =
      if not (str_eq r.method (codes "POST"))
      then (ok method_not_allowed, w)
      else check_decoded (service.decode r.body) w

  -- The patterns of the `ServeMux`.
  abbrev pub serve : Request → World → Outcome Response × World
  serve r w =
      if str_eq r.path (codes "/api/check")
      then check_api r w
      else if str_eq r.path (codes "/healthz")
      then (ok health, w)
      else (ok (index r), w)

  unfoldable pub handler : Request → World → Outcome Response × World
  handler r w = let served = serve r w in (secure_headers served.0, served.1)
