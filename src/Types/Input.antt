-- ===== src/Types/Input.antt =====
-- internal/checker/types.go: what a check is given, and the target that it is normalised to.
use ssl_certificate_verifier.Base.{Bool, Text, false, []}
use ssl_certificate_verifier.Base.Int.{ℤ, pos}
use ssl_certificate_verifier.Types.Go.{Duration, Bytes}

-- Options controls how a target is checked.
pub record Options : Type 0 where
  pub port : ℤ
  pub server_name : Text
  pub verify_name : Text
  pub timeout : Duration
  pub tls_min : Text
  pub tls_max : Text
  pub ca_file : Text
  pub ca_bundle_pem : Bytes
  pub no_hostname : Bool
  pub include_pem : Bool
  pub skip_tls_probe : Bool
  pub skip_dns : Bool
  pub skip_http : Bool
  pub skip_ciphers : Bool
  pub force_tls : Bool

-- Target is the normalized destination derived from user input.
pub record Target : Type 0 where
  pub input : Text
  pub scheme : Text
  pub host : Text
  pub port : ℤ
  pub path : Text
  pub address : Text
  pub is_ip : Bool

-- TargetInfo is embedded in the public report.
pub record TargetInfo : Type 0 where
  pub scheme : Text
  pub host : Text
  pub port : ℤ
  pub address : Text
  pub path : Text
  pub is_ip : Bool
  pub server_name : Text
  pub verify_name : Text

-- Go's zero values.
abbrev pub empty_options : Options
empty_options = record {
  port = pos 0;
  server_name = [];
  verify_name = [];
  timeout = pos 0;
  tls_min = [];
  tls_max = [];
  ca_file = [];
  ca_bundle_pem = [];
  no_hostname = false;
  include_pem = false;
  skip_tls_probe = false;
  skip_dns = false;
  skip_http = false;
  skip_ciphers = false;
  force_tls = false;
}

abbrev pub empty_target_info : TargetInfo
empty_target_info = record {
  scheme = [];
  host = [];
  port = pos 0;
  address = [];
  path = [];
  is_ip = false;
  server_name = [];
  verify_name = [];
}
