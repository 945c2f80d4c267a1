-- ===== src/Render/Network.antt =====
-- internal/checker/render.go: the parts on DNS, TLS and HTTP.
use ssl_certificate_verifier.Base.{
  ℕ, Bool, not, ◌&&◌, List, [], ◌∷◌, ◌++◌, map, if◌then◌else◌, Text, codes, str_eq, is_empty,
}
use ssl_certificate_verifier.Strings.{itoa}
use ssl_certificate_verifier.Types.{
  Result, DnsInfo, CaaRecord, TlsInfo, TlsVersionSupport, HttpInfo, HttpHeaderCheck,
}
use ssl_certificate_verifier.Security.Finding.{blank_dash}
use ssl_certificate_verifier.Render.Words.{yes_no, join_limit, pad, when, titled}
use ssl_certificate_verifier.Render.Ciphers.{cipher_lines}

unfoldable pub caa_line : CaaRecord → Text
caa_line caa =
    codes "CAA:         " ++ (itoa caa.flag ++ (codes " " ++ (caa.tag ++ (codes " " ++ caa.value))))

abbrev caa_lines : Bool → DnsInfo → List CaaRecord → List Text
caa_lines is_ip dns [] = when (not is_ip) (codes "CAA:         -" ∷ [])
caa_lines is_ip dns (caa ∷ records) =
    when (not (is_empty dns.caa_host) && not (str_eq dns.caa_host dns.hostname))
      ((codes "CAA host:    " ++ dns.caa_host) ∷ [])
    ++ map caa_line (caa ∷ records)

-- A line for a list that is not empty.
abbrev pub list_line : Text → ℕ → List Text → List Text
list_line label limit values =
    when (not (is_empty values)) ((label ++ join_limit values limit) ∷ [])

unfoldable pub dns_lines : Result → List Text
dns_lines r = when r.dns.attempted (
    titled (codes "DNS") (codes "---") (
      (codes "Host:        " ++ blank_dash r.dns.hostname)
      ∷ (codes "CNAME:       " ++ blank_dash r.dns.cname)
      ∷ (list_line (codes "A:           ") 8 r.dns.a
          ++ (list_line (codes "AAAA:        ") 8 r.dns.aaaa
              ++ (list_line (codes "PTR:         ") 8 r.dns.ptr
                  ++ caa_lines r.target.is_ip r.dns r.dns.caa)))))

unfoldable pub version_line : TlsVersionSupport → Text
version_line v =
    if v.supported
    then codes "  [ok]   " ++ (pad 7 v.version ++ (codes "  " ++ blank_dash v.cipher_suite))
    else codes "  [fail] " ++ (pad 7 v.version ++ (codes "  " ++ blank_dash v.error))

-- A line for an error that is not empty.
abbrev pub error_line : Text → List Text
error_line e = when (not (is_empty e)) ((codes "Error:       " ++ e) ∷ [])

abbrev connection_lines : TlsInfo → List Text
connection_lines tls =
    if tls.connected
    then (codes "Version:     " ++ tls.negotiated_version)
      ∷ (codes "Cipher:      " ++ blank_dash tls.cipher_suite)
      ∷ (codes "ALPN:        " ++ blank_dash tls.alpn)
      ∷ (codes "Compression: " ++ yes_no tls.compression)
      ∷ (codes "OCSP staple: "
          ++ (yes_no tls.ocsp_stapled
              ++ (codes " (" ++ (itoa tls.ocsp_response_bytes ++ codes " bytes)"))))
      ∷ (codes "SCTs:        " ++ itoa tls.sct_count)
      ∷ (codes "Peer certs:  " ++ itoa tls.peer_certificate_count)
      ∷ []
    else error_line tls.error

unfoldable pub tls_lines : TlsInfo → List Text
tls_lines tls = when tls.attempted (
    titled (codes "TLS") (codes "---") (
      (codes "Connected:   " ++ yes_no tls.connected)
      ∷ (codes "SNI:         " ++ (if not (is_empty tls.sni) then tls.sni else codes "<none>"))
      ∷ (connection_lines tls
          ++ (when (not (is_empty tls.supported_versions))
                ([] ∷ codes "TLS version support" ∷ map version_line tls.supported_versions)
              ++ when (not (is_empty tls.supported_ciphers)) (
                  []
                  ∷ codes "Accepted TLS 1.0-1.2 ciphers"
                  ∷ cipher_lines tls.supported_ciphers)))))

unfoldable pub header_line : HttpHeaderCheck → Text
header_line h =
    codes "  [" ++ (h.status ++ (codes "] " ++ (h.name ++ (codes ": " ++ blank_dash h.value))))

abbrev response_lines : HttpInfo → List Text
response_lines http =
    if http.reachable
    then (codes "Status:      " ++ http.status)
      ∷ (codes "Server:      " ++ blank_dash http.server)
      ∷ (codes "ContentType: " ++ blank_dash http.content_type)
      ∷ (codes "Redirect:    " ++ blank_dash http.redirect_location)
      ∷ when (not (is_empty http.security_headers))
          ([] ∷ codes "HTTP security headers" ∷ map header_line http.security_headers)
    else error_line http.error

unfoldable pub http_lines : HttpInfo → List Text
http_lines http = when http.attempted (
    titled (codes "HTTP") (codes "----") (
      (codes "URL:         " ++ http.url)
      ∷ (codes "Reachable:   " ++ yes_no http.reachable)
      ∷ response_lines http))
