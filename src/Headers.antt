-- ===== src/Headers.antt =====
-- internal/checker/http_headers.go, with `http.Header.Get` on a map with canonical keys: every name
-- that the program asks for is canonical.
use ssl_certificate_verifier.Base.{
  Bool, true, false, not, ◌&&◌, ◌||◌, List, [], ◌∷◌, ◌++◌, if◌then◌else◌, Text, codes, str_eq,
  is_empty, head_or,
}
use ssl_certificate_verifier.Base.Int.{ℤ, pos, leb_ℤ, ltb_ℤ}
use ssl_certificate_verifier.Strings.{trim_space, to_lower, has_prefix, contains, equal_fold}
use ssl_certificate_verifier.Types.{Header, HttpHeaderCheck}

unfoldable pub header_get : Header → Text → Text
header_get [] name = []
header_get ((key, values) ∷ header) name =
    if str_eq key name then head_or [] values else header_get header name

unfoldable pub clone_header : Header → Header
clone_header [] = []
clone_header ((key, values) ∷ header) = (key, [] ++ values) ∷ clone_header header

unfoldable pub header_status : Bool → Text → Text
header_status true missing_status = codes "pass"
header_status false missing_status = missing_status

unfoldable pub header_check : Header → Text → Text → Text → HttpHeaderCheck
header_check header name missing_status description =
    let value = header_get header name in
    let present = not (is_empty (trim_space value)) in
    let status = header_status present missing_status in
    record {
      name = name;
      present = present;
      value = value;
      status =
          if equal_fold name (codes "X-Content-Type-Options")
            && present
            && not (equal_fold (trim_space value) (codes "nosniff"))
          then codes "warn"
          else status;
      description = description;
    }

unfoldable pub frame_protection_check : Header → HttpHeaderCheck
frame_protection_check header =
    let xfo = header_get header (codes "X-Frame-Options") in
    let csp = header_get header (codes "Content-Security-Policy") in
    let present =
      not (is_empty (trim_space xfo)) || contains (to_lower csp) (codes "frame-ancestors") in
    record {
      name = codes "Frame protection";
      present = present;
      value =
          if is_empty (trim_space xfo) && not (is_empty (trim_space csp))
          then codes "Content-Security-Policy frame-ancestors"
          else xfo;
      status = header_status present (codes "warn");
      description = codes "Prevents clickjacking with X-Frame-Options or CSP frame-ancestors.";
    }

abbrev pub is_https_location : Text → Bool
is_https_location location = has_prefix (to_lower location) (codes "https://")

-- The check of a plain HTTP response.
unfoldable pub redirect_check : ℤ → Text → HttpHeaderCheck
redirect_check status_code location =
    let redirects_https =
      leb_ℤ (pos 300) status_code && ltb_ℤ status_code (pos 400) && is_https_location location in
    record {
      name = codes "HTTPS redirect";
      present = redirects_https;
      value = location;
      status = header_status redirects_https (codes "fail");
      description = codes "Plain HTTP should redirect to HTTPS.";
    }

abbrev pub server_check : Text → List HttpHeaderCheck
server_check [] = []
server_check (c ∷ server) =
    record {
      name = codes "Server";
      present = true;
      value = c ∷ server;
      status = codes "info";
      description = codes "Server banner is visible; minimize version details when possible.";
    }
    ∷ []

unfoldable pub https_checks : Header → List HttpHeaderCheck
https_checks header =
    header_check header (codes "Strict-Transport-Security") (codes "warn")
      (codes "Enforces HTTPS for repeat visitors and is required before HSTS preload.")
    ∷ header_check header (codes "Content-Security-Policy") (codes "warn")
        (codes "Restricts where browsers can load active content from.")
    ∷ header_check header (codes "X-Content-Type-Options") (codes "warn")
        (codes "Should normally be nosniff to block MIME sniffing.")
    ∷ frame_protection_check header
    ∷ header_check header (codes "Referrer-Policy") (codes "info")
        (codes "Controls how much referrer data browsers send.")
    ∷ header_check header (codes "Permissions-Policy") (codes "info")
        (codes "Restricts powerful browser features such as geolocation or camera.")
    ∷ []

unfoldable pub analyze_http_headers : Header → Bool → ℤ → Text → List HttpHeaderCheck
analyze_http_headers header plaintext status_code location =
    if plaintext
    then redirect_check status_code location ∷ []
    else https_checks header ++ server_check (header_get header (codes "Server"))
