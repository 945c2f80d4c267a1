-- ===== src/Types/Probes.antt =====
-- internal/checker/types.go: what the handshake, the probes, HTTP and DNS report.
use ssl_certificate_verifier.Base.{ℕ, Bool, Text, List, false, []}
use ssl_certificate_verifier.Base.Int.{ℤ, pos}
use ssl_certificate_verifier.Types.Go.{Header}

-- TLSVersionSupport records the result of probing one exact TLS version.
pub record TlsVersionSupport : Type 0 where
  pub version : Text
  pub supported : Bool
  pub cipher_suite : Text
  pub error : Text

-- TLSCipherSupport records one cipher-suite probe result.
pub record TlsCipherSupport : Type 0 where
  pub version : Text
  pub id : Text
  pub name : Text
  pub supported : Bool
  pub insecure : Bool
  pub strength : Text
  pub forward_secrecy : Bool
  pub aead : Bool
  pub cbc : Bool
  pub rc4 : Bool
  pub triple_des : Bool
  pub error : Text

-- TLSInfo reports TLS connection and version support information.
pub record TlsInfo : Type 0 where
  pub attempted : Bool
  pub connected : Bool
  pub negotiated_version : Text
  pub cipher_suite : Text
  pub alpn : Text
  pub sni : Text
  pub compression : Bool
  pub ocsp_stapled : Bool
  pub ocsp_response_bytes : ℕ
  pub sct_count : ℕ
  pub peer_certificate_count : ℕ
  pub supported_versions : List TlsVersionSupport
  pub supported_ciphers : List TlsCipherSupport
  pub error : Text

-- HTTPHeaderCheck reports a security-relevant HTTP response header check.
pub record HttpHeaderCheck : Type 0 where
  pub name : Text
  pub present : Bool
  pub value : Text
  pub status : Text
  pub description : Text

-- HTTPInfo reports plain HTTP reachability for http:// targets or fallbacks.
pub record HttpInfo : Type 0 where
  pub attempted : Bool
  pub reachable : Bool
  pub url : Text
  pub status : Text
  pub status_code : ℤ
  pub server : Text
  pub content_type : Text
  pub redirect_location : Text
  pub plaintext : Bool
  pub https_redirect : Bool
  pub headers : Header
  pub security_headers : List HttpHeaderCheck
  pub error : Text

-- CAARecord is a DNS Certification Authority Authorization record.
pub record CaaRecord : Type 0 where
  pub flag : ℕ
  pub tag : Text
  pub value : Text

-- DNSInfo reports DNS records that matter to SSL/TLS installation checks.
pub record DnsInfo : Type 0 where
  pub attempted : Bool
  pub hostname : Text
  pub cname : Text
  pub a : List Text
  pub aaaa : List Text
  pub ptr : List Text
  pub caa_host : Text
  pub caa : List CaaRecord
  pub error : Text

-- Go's zero values.
abbrev pub empty_tls_info : TlsInfo
empty_tls_info = record {
  attempted = false;
  connected = false;
  negotiated_version = [];
  cipher_suite = [];
  alpn = [];
  sni = [];
  compression = false;
  ocsp_stapled = false;
  ocsp_response_bytes = 0;
  sct_count = 0;
  peer_certificate_count = 0;
  supported_versions = [];
  supported_ciphers = [];
  error = [];
}

abbrev pub empty_http_info : HttpInfo
empty_http_info = record {
  attempted = false;
  reachable = false;
  url = [];
  status = [];
  status_code = pos 0;
  server = [];
  content_type = [];
  redirect_location = [];
  plaintext = false;
  https_redirect = false;
  headers = [];
  security_headers = [];
  error = [];
}

abbrev pub empty_dns_info : DnsInfo
empty_dns_info = record {
  attempted = false;
  hostname = [];
  cname = [];
  a = [];
  aaaa = [];
  ptr = [];
  caa_host = [];
  caa = [];
  error = [];
}
