-- ===== src/Security/Endpoint.antt =====
-- internal/checker/security.go: the findings on response headers and DNS.
use ssl_certificate_verifier.Base.{
  not, ◌&&◌, ◌||◌, List, [], ◌∷◌, ◌++◌, if◌then◌else◌, Text, codes, str_eq, is_empty,
}
use ssl_certificate_verifier.Strings.{to_lower, replace_byte}
use ssl_certificate_verifier.Types.{Result, SecurityFinding, HttpHeaderCheck}
use ssl_certificate_verifier.Security.Finding.{finding, add_if}

unfoldable pub status_severity : HttpHeaderCheck → Text
status_severity h =
    if str_eq h.status (codes "fail")
    then codes "high"
    else if str_eq h.status (codes "warn")
    then codes "medium"
    else codes "info"

-- One round of `addHTTPHeaderFindings` that is not skipped.
unfoldable pub header_finding : HttpHeaderCheck → SecurityFinding
header_finding check =
    finding (codes "http_header_" ++ to_lower (replace_byte check.name b' ' b'_'))
      (check.name ++ codes " missing") (status_severity check) check.status check.description

unfoldable pub header_findings : List HttpHeaderCheck → List SecurityFinding
header_findings [] = []
header_findings (check ∷ checks) =
    (if str_eq check.status (codes "pass") || str_eq check.status (codes "info")
      then []
      else header_finding check ∷ [])
    ++ header_findings checks

unfoldable pub add_http_header_findings : Result → List SecurityFinding
add_http_header_findings r = header_findings r.http.security_headers

unfoldable pub add_dns_findings : Result → List SecurityFinding
add_dns_findings r =
    if not r.dns.attempted || r.target.is_ip
    then []
    else (if is_empty r.dns.caa
        then finding (codes "caa_missing") (codes "CAA record not found") (codes "info")
            (codes "info") (codes "No CAA records were returned for the target host.")
        else finding (codes "caa_present") (codes "CAA records present") (codes "info")
            (codes "pass")
            (codes "CAA records restrict which certificate authorities may issue for the domain."))
      ∷ add_if (is_empty r.dns.a && is_empty r.dns.aaaa) (
          finding (codes "dns_address_missing") (codes "No DNS address records") (codes "high")
            (codes "fail") (codes "No A or AAAA records were returned for the target host."))
