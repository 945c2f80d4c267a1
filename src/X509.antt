-- ===== src/X509.antt =====
-- What the program reads of Go's `crypto/x509`: certificates, keys and the operations on them. The
-- results of methods without arguments (`String()`, `Text(16)`) are fields; the operations are the
-- fields of a parameter.
use ssl_certificate_verifier.Base.{ℕ, Bool, List, Text, Option, Outcome}
use ssl_certificate_verifier.Base.Int.{ℤ}
use ssl_certificate_verifier.Types.{Bytes, Instant}

-- `pkix.Name`.
pub record Name : Type 0 where
  pub text : Text
  pub common_name : Text
  pub organization : List Text
  pub country : List Text
  pub locality : List Text

-- `pkix.Extension`.
pub record Extension : Type 0 where
  pub id : List ℕ
  pub value : Bytes

-- The key types that are told apart, with what their size is read from: the bit length of the
-- modulus, the bit size of the curve, and the key's bytes.
pub data PublicKey : Type 0 where
  rsa : ℕ → PublicKey
  ecdsa : ℕ → PublicKey
  ed25519 : Bytes → PublicKey
  other_key : PublicKey

pub record Certificate : Type 0 where
  pub raw : Bytes
  pub version : ℤ
  pub subject : Name
  pub issuer : Name
  pub serial_decimal : Text
  pub serial_hex : Text
  pub not_before : Instant
  pub not_after : Instant
  pub dns_names : List Text
  pub ip_addresses : List Text
  pub email_addresses : List Text
  pub uris : List Text
  pub is_ca : Bool
  pub basic_constraints_valid : Bool
  pub max_path_len : ℤ
  pub max_path_len_zero : Bool
  pub policy_identifiers : List Text
  pub key_usage : ℕ
  pub ext_key_usage : List ℕ
  pub public_key_algorithm : Text
  pub public_key : PublicKey
  pub signature_algorithm : Text
  pub subject_key_id : Bytes
  pub authority_key_id : Bytes
  pub ocsp_server : List Text
  pub issuing_certificate_url : List Text
  pub crl_distribution_points : List Text
  pub extensions : List Extension

-- `CheckSignatureFrom` gives an error or none.
pub record X509 : Type 0 where
  pub check_signature_from : Certificate → Certificate → Option Text
  pub sha256 : Bytes → Bytes
  pub sha1 : Bytes → Bytes
  pub md5 : Bytes → Bytes
  pub marshal_public_key : Certificate → Outcome Bytes
  pub encode_pem : Bytes → Text
