-- ===== src/Gui/Secured.antt =====
-- The headers of the web interface, under the scanner's own checks.
use ssl_certificate_verifier.Base.{
  ℕ, ◌≡◌, refl, ap, ◌∙◌, arith, Bool, true, false, not, ◌&&◌, if◌then◌else◌, [], ◌∷◌, Text, codes,
  str_eq, is_empty, Outcome, ok, err, panic, ◌≢◌, Returns, Returns-mono,
}
use ssl_certificate_verifier.Base.Int.{ℤ}
use ssl_certificate_verifier.Strings.{trim_space, text_runs}
use ssl_certificate_verifier.Types.{Options, Header}
use ssl_certificate_verifier.Headers.{header_get, analyze_http_headers}
use ssl_certificate_verifier.Security.Endpoint.{header_findings}
use ssl_certificate_verifier.Security.Hardened.{is_hardened, header_findings-is_hardened}
use ssl_certificate_verifier.Check.Run.{Environment}
use ssl_certificate_verifier.Gui.{
  Request, Response, Service, secure_header_list, secure_headers, health, index, serve, handler,
  Body, error_object, report, set_line, set_all, http_error, write_json, index_page,
}
use ssl_certificate_verifier.Gui.Answer.{
  IsAnswer, check_api-IsAnswer, wrong_method, not_decoded, no_target, refused, reported,
}

-- The response behind a proxy that adds Strict-Transport-Security.
abbrev pub behind_proxy : Text → Response → Header
behind_proxy value r = (codes "Strict-Transport-Security", value ∷ []) ∷ r.header

and_true : (a b : Bool) → a ≡ true → b ≡ true → a && b ≡ true
and_true a b h k = ground arith

-- A header that takes nothing away from those that were set before.
abbrev StaysHardened : Response → Type 0
StaysHardened r =
    (value : Text)
    → is_empty (trim_space value) ≡ false
    → is_hardened
        ((codes "Strict-Transport-Security", value ∷ []) ∷ set_all secure_header_list r.header)
      ≡ true

json-StaysHardened : (status : ℕ) (body : Body) → StaysHardened (write_json status body)
unfolding header_get set_all set_line text_runs
json-StaysHardened status body value h = and_true _ _ (ap not h) refl

error-StaysHardened : (text : Text) (status : ℕ) → StaysHardened (http_error text status)
unfolding header_get set_all set_line text_runs
error-StaysHardened text status value h = and_true _ _ (ap not h) refl

health-StaysHardened : StaysHardened health
unfolding header_get set_all set_line text_runs
health-StaysHardened value h = and_true _ _ (ap not h) refl

page-StaysHardened : StaysHardened index_page
unfolding header_get set_all set_line text_runs
page-StaysHardened value h = and_true _ _ (ap not h) refl

index-StaysHardened : (r : Request) → StaysHardened (index r)
unfolding index
index-StaysHardened r = at (not (str_eq r.path (codes "/")))
  where
    at :
        (b : Bool)
        → StaysHardened (if b then http_error (codes "404 page not found") 404 else index_page)
    at true = error-StaysHardened (codes "404 page not found") 404
    at false = page-StaysHardened

-- The scanner would have no finding about the headers of a response behind such a proxy.
abbrev pub IsQuiet : Text → ℤ → Text → Response → Type 0
IsQuiet value status_code location r =
    is_empty
      (header_findings (analyze_http_headers (behind_proxy value r) false status_code location))
    ≡ true

secure_headers-IsQuiet :
    (value : Text) (status_code : ℤ) (location : Text) (o : Outcome Response)
    → is_empty (trim_space value) ≡ false
    → Returns StaysHardened o
    → Returns (IsQuiet value status_code location) (secure_headers o)
unfolding secure_headers
secure_headers-IsQuiet value status_code location (ok r) h returns =
    header_findings-is_hardened _ status_code location ∙ returns value h
secure_headers-IsQuiet value status_code location (err e) h returns = returns
secure_headers-IsQuiet value status_code location panic h returns = returns

module _ {World Conn Socket Pool : Type 0} (env : Environment World Conn Socket Pool)
    (service : Service World) (defaults : Options) where
  -- A response in both cases.
  either :
      (b : Bool) (x y : Outcome Response × World)
      → Returns StaysHardened x.0
      → Returns StaysHardened y.0
      → Returns StaysHardened (if b then x else y).0
  either true x y h k = h
  either false x y h k = k

  answer-StaysHardened :
      (r : Request) (w : World) (response : Response)
      → IsAnswer env service defaults r w response
      → StaysHardened response
  answer-StaysHardened r w _ (wrong_method other) = error-StaysHardened (codes "POST required") 405
  answer-StaysHardened r w _ (not_decoded e post decoded) = json-StaysHardened 400 (error_object e)
  answer-StaysHardened r w _ (no_target req post decoded blank) =
      json-StaysHardened 400 (error_object (codes "target is required"))
  answer-StaysHardened r w _ (refused req opt e post decoded filled asked checked) =
      json-StaysHardened 400 (error_object e)
  answer-StaysHardened r w _ (reported req opt result post decoded filled asked checked) =
      json-StaysHardened 200 (report result)

  serve-Returns :
      (r : Request) (w : World)
      → ((text : Text) → env.syntax.parse_url text ≢ panic)
      → Returns StaysHardened (serve env service defaults r w).0
  serve-Returns r w returns =
      either (str_eq r.path (codes "/api/check")) _ _
        (Returns-mono (IsAnswer env service defaults r w) _ _
          (λ response. answer-StaysHardened r w response)
          (check_api-IsAnswer env service defaults r w returns))
        (either (str_eq r.path (codes "/healthz")) (ok health, w) (ok (index r), w)
          health-StaysHardened (index-StaysHardened r))

-- The web interface answers every request, if the URL parser does not panic, and behind a proxy for
-- HTTPS that only adds `Strict-Transport-Security`, with a value, the scanner itself would have no
-- finding about the headers of the response.
pub handler-IsQuiet :
    {World Conn Socket Pool : Type 0} (env : Environment World Conn Socket Pool)
    (service : Service World) (defaults : Options) (r : Request) (w : World) (value : Text)
    (status_code : ℤ) (location : Text)
    → is_empty (trim_space value) ≡ false
    → ((text : Text) → env.syntax.parse_url text ≢ panic)
    → Returns (IsQuiet value status_code location) (handler env service defaults r w).0
unfolding handler
handler-IsQuiet env service defaults r w value status_code location h returns =
    secure_headers-IsQuiet value status_code location _ h
      (serve-Returns env service defaults r w returns)
