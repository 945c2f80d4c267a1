-- ===== src/Security/Hardened.antt =====
-- Which header checks lead to findings.
use ssl_certificate_verifier.Base.{
  ◌≡◌, refl, arith, Bool, true, false, not, ◌&&◌, ◌||◌, List, [], ◌∷◌, ◌++◌, if◌then◌else◌, Text,
  codes, str_eq, is_empty,
}
use ssl_certificate_verifier.Base.Int.{ℤ, pos, leb_ℤ, ltb_ℤ}
use ssl_certificate_verifier.Strings.{
  trim_space, to_lower, contains, equal_fold, has_prefix, text_runs,
}
use ssl_certificate_verifier.Types.{Header, HttpHeaderCheck}
use ssl_certificate_verifier.Headers.{
  header_get, header_status, header_check, frame_protection_check, redirect_check, https_checks,
  analyze_http_headers, server_check, is_https_location,
}
use ssl_certificate_verifier.Security.Endpoint.{header_findings}

-- A name of a header and whether the header has more than white space.
abbrev has_value : Header → Text → Bool
has_value header name = not (is_empty (trim_space (header_get header name)))

-- The response is served with all the protections that the scanner insists on.
abbrev pub is_hardened : Header → Bool
is_hardened header =
    has_value header (codes "Strict-Transport-Security")
    && (has_value header (codes "Content-Security-Policy")
        && (equal_fold (trim_space (header_get header (codes "X-Content-Type-Options")))
              (codes "nosniff")
            && (has_value header (codes "X-Frame-Options")
                || contains (to_lower (header_get header (codes "Content-Security-Policy")))
                    (codes "frame-ancestors"))))

abbrev is_quiet : HttpHeaderCheck → Bool
is_quiet check = str_eq check.status (codes "pass") || str_eq check.status (codes "info")

abbrev all_quiet : List HttpHeaderCheck → Bool
all_quiet [] = true
all_quiet (check ∷ checks) = is_quiet check && all_quiet checks

all_quiet-append :
    (cs ds : List HttpHeaderCheck) → all_quiet (cs ++ ds) ≡ all_quiet cs && all_quiet ds
all_quiet-append [] ds = refl
all_quiet-append (c ∷ cs) ds = ground (arith, all_quiet-append cs ds)

header_findings-is_empty :
    (checks : List HttpHeaderCheck) → is_empty (header_findings checks) ≡ all_quiet checks
unfolding header_findings
header_findings-is_empty [] = refl
header_findings-is_empty (check ∷ checks) = ground (arith, header_findings-is_empty checks)

quiet_test :
    (content_type present nosniff : Bool)
    → is_quiet (record {
      name = [];
      present = present;
      value = [];
      status =
          if content_type && present && not nosniff
          then codes "warn"
          else header_status present (codes "warn");
      description = [];
    })
      ≡ present && (not content_type || nosniff)
unfolding text_runs header_status
quiet_test true true true = refl
quiet_test true true false = refl
quiet_test true false true = refl
quiet_test true false false = refl
quiet_test false true true = refl
quiet_test false true false = refl
quiet_test false false true = refl
quiet_test false false false = refl

nosniff_is_present :
    (t : Text)
    → (not (is_empty t) && (not true || equal_fold t (codes "nosniff")))
      ≡ equal_fold t (codes "nosniff")
unfolding text_runs
nosniff_is_present [] = refl
nosniff_is_present (c ∷ t) = refl

header_check-quiet :
    (header : Header) (name description : Text)
    → is_quiet (header_check header name (codes "warn") description)
      ≡ has_value header name
        && (not (equal_fold name (codes "X-Content-Type-Options"))
            || equal_fold (trim_space (header_get header name)) (codes "nosniff"))
unfolding header_check
header_check-quiet header name description =
    quiet_test (equal_fold name (codes "X-Content-Type-Options")) (has_value header name)
      (equal_fold (trim_space (header_get header name)) (codes "nosniff"))

names_differ :
    (equal_fold (codes "Strict-Transport-Security") (codes "X-Content-Type-Options") ≡ false)
    × (equal_fold (codes "Content-Security-Policy") (codes "X-Content-Type-Options") ≡ false)
    × (equal_fold (codes "X-Content-Type-Options") (codes "X-Content-Type-Options") ≡ true)
    × (equal_fold (codes "Referrer-Policy") (codes "X-Content-Type-Options") ≡ false)
    × (equal_fold (codes "Permissions-Policy") (codes "X-Content-Type-Options") ≡ false)
unfolding text_runs
names_differ = (refl, refl, refl, refl, refl)

-- A check of low importance never leads to a finding.
info_test :
    (present : Bool)
    → str_eq (header_status present (codes "info")) (codes "pass")
        || str_eq (header_status present (codes "info")) (codes "info")
      ≡ true
unfolding text_runs header_status
info_test true = refl
info_test false = refl

header_check-info :
    (header : Header) (name description : Text)
    → equal_fold name (codes "X-Content-Type-Options") ≡ false
    → is_quiet (header_check header name (codes "info") description) ≡ true
unfolding header_check
header_check-info header name description h = rw h (info_test (has_value header name))

frame_test :
    (present : Bool)
    → str_eq (header_status present (codes "warn")) (codes "pass")
        || str_eq (header_status present (codes "warn")) (codes "info")
      ≡ present
unfolding text_runs header_status
frame_test true = refl
frame_test false = refl

frame_protection_check-quiet :
    (header : Header)
    → is_quiet (frame_protection_check header) ≡ (
        has_value header (codes "X-Frame-Options")
        || contains
            (to_lower (header_get header (codes "Content-Security-Policy")))
            (codes "frame-ancestors"))
unfolding frame_protection_check
frame_protection_check-quiet header = frame_test (
    has_value header (codes "X-Frame-Options")
    || contains (to_lower (header_get header (codes "Content-Security-Policy")))
        (codes "frame-ancestors"))

server_check-quiet : (server : Text) → all_quiet (server_check server) ≡ true
unfolding text_runs
server_check-quiet [] = refl
server_check-quiet (c ∷ server) = refl

redirect_test :
    (present : Bool)
    → str_eq (header_status present (codes "fail")) (codes "pass")
        || str_eq (header_status present (codes "fail")) (codes "info")
      ≡ present
unfolding text_runs header_status
redirect_test true = refl
redirect_test false = refl

https_checks-quiet : (header : Header) → all_quiet (https_checks header) ≡ is_hardened header
unfolding https_checks
https_checks-quiet header =
    let (sts, csp, xcto, referrer, permissions) = names_differ in
    rw
      (
        header_check-quiet header (codes "Strict-Transport-Security"),
        sts,
        header_check-quiet header (codes "Content-Security-Policy"),
        csp,
        header_check-quiet header (codes "X-Content-Type-Options"),
        xcto,
        nosniff_is_present,
        frame_protection_check-quiet header,
        header_check-info header (codes "Referrer-Policy") _ referrer,
        header_check-info header (codes "Permissions-Policy") _ permissions,
      )
      (ground arith)

-- A response over HTTPS has no finding about its headers just if it sets
-- `Strict-Transport-Security`, `Content-Security-Policy`, `X-Content-Type-Options: nosniff` and
-- `X-Frame-Options` or the directive `frame-ancestors`, whatever else it sends.
pub header_findings-is_hardened :
    (header : Header) (status_code : ℤ) (location : Text)
    → is_empty (header_findings (analyze_http_headers header false status_code location))
      ≡ is_hardened header
unfolding analyze_http_headers
header_findings-is_hardened header status_code location =
    rw
      (
        header_findings-is_empty,
        all_quiet-append (https_checks header),
        https_checks-quiet header,
        server_check-quiet,
      )
      (ground arith)

-- A plain response has no finding about its headers just if it is a redirect, with a status from
-- 300 to 399, to an address with the scheme `https`.
pub header_findings-redirect :
    (header : Header) (status_code : ℤ) (location : Text)
    → is_empty (header_findings (analyze_http_headers header true status_code location))
      ≡ leb_ℤ (pos 300) status_code
        && ltb_ℤ status_code (pos 400)
        && has_prefix (to_lower location) (codes "https://")
unfolding analyze_http_headers redirect_check
header_findings-redirect header status_code location =
    let redirects =
      leb_ℤ (pos 300) status_code && ltb_ℤ status_code (pos 400) && is_https_location location in
    rw (header_findings-is_empty, redirect_test redirects) (ground arith)
