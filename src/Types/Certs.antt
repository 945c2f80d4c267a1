-- ===== src/Types/Certs.antt =====
-- internal/checker/types.go: the summaries of certificates and of their verification.
use ssl_certificate_verifier.Base.{ℕ, Bool, Text, List, false, []}
use ssl_certificate_verifier.Base.Int.{ℤ}
use ssl_certificate_verifier.Types.Go.{Instant}

-- ChainCertificate is a compact certificate summary for verified chains.
pub record ChainCertificate : Type 0 where
  pub subject : Text
  pub issuer : Text
  pub common_name : Text
  pub is_ca : Bool
  pub is_root : Bool
  pub not_after : Instant
  pub fingerprint_sha256 : Text

-- VerifiedChain is one chain built by the OS/custom CA verifier.
pub record VerifiedChain : Type 0 where
  pub chain : ℕ
  pub certificates : List ChainCertificate

-- VerificationInfo reports hostname, chain, root and validity verification.
pub record VerificationInfo : Type 0 where
  pub checked : Bool
  pub verified : Bool
  pub chain_verified : Bool
  pub hostname_checked : Bool
  pub hostname_verified : Bool
  pub root_trusted : Bool
  pub chain_complete : Bool
  pub expired : Bool
  pub not_yet_valid : Bool
  pub self_signed_leaf : Bool
  pub uses_custom_ca : Bool
  pub verify_name : Text
  pub errors : List Text
  pub verified_chains : List VerifiedChain

-- CertificateInfo is a detailed summary of a certificate sent by the peer.
pub record CertificateInfo : Type 0 where
  pub index : ℕ
  pub role : Text
  pub version : ℤ
  pub subject : Text
  pub subject_common_name : Text
  pub subject_organization : List Text
  pub subject_country : List Text
  pub subject_locality : List Text
  pub issuer : Text
  pub issuer_common_name : Text
  pub issuer_organization : List Text
  pub issuer_country : List Text
  pub serial_number : Text
  pub serial_number_hex : Text
  pub not_before : Instant
  pub not_after : Instant
  pub days_remaining : ℤ
  pub status : Text
  pub dns_names : List Text
  pub wildcard_dns_names : List Text
  pub ip_addresses : List Text
  pub email_addresses : List Text
  pub uris : List Text
  pub is_ca : Bool
  pub is_self_signed : Bool
  pub basic_constraints_valid : Bool
  pub max_path_len : ℤ
  pub max_path_len_zero : Bool
  pub certificate_policies : List Text
  pub validation_level : Text
  pub key_usage : List Text
  pub ext_key_usage : List Text
  pub public_key_algorithm : Text
  pub public_key_size : ℕ
  pub public_key_sha256 : Text
  pub signature_algorithm : Text
  pub fingerprint_md5 : Text
  pub fingerprint_sha1 : Text
  pub fingerprint_sha256 : Text
  pub subject_key_id : Text
  pub authority_key_id : Text
  pub ocsp_servers : List Text
  pub ocsp_must_staple : Bool
  pub issuing_certificate_urls : List Text
  pub crl_distribution_points : List Text
  pub embedded_sct_count : ℕ
  pub pem : Text

-- Go's zero values.
abbrev pub empty_verification_info : VerificationInfo
empty_verification_info = record {
  checked = false;
  verified = false;
  chain_verified = false;
  hostname_checked = false;
  hostname_verified = false;
  root_trusted = false;
  chain_complete = false;
  expired = false;
  not_yet_valid = false;
  self_signed_leaf = false;
  uses_custom_ca = false;
  verify_name = [];
  errors = [];
  verified_chains = [];
}
