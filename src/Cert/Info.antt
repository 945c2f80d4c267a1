-- ===== src/Cert/Info.antt =====
-- internal/checker/cert.go: `CertificatesInfo`, `IsSelfSigned` and the labels of certificates.
pub mod Days
pub mod Time
pub mod Laws
use ssl_certificate_verifier.Base.{
  ℕ, zero, suc, ◌+◌, Bool, true, false, List, [], ◌∷◌, ◌++◌, ◌==◌, if◌then◌else◌, Text, codes,
  is_empty, head_or, Option, none, some, Outcome, ok, err, panic, ◌>>=◌,
}
use ssl_certificate_verifier.Base.Int.{ltb_ℤ}
use ssl_certificate_verifier.Strings.{to_upper}
use ssl_certificate_verifier.Types.{CertificateInfo, Instant}
use ssl_certificate_verifier.X509.{X509, Certificate}
use ssl_certificate_verifier.Cert.Hex.{
  colon_hex, fingerprint_md5, fingerprint_sha1, fingerprint_sha256, public_key_sha256,
}
use ssl_certificate_verifier.Cert.Usage.{
  key_usage_names, ext_key_usage_names, wildcard_dns_names, public_key_size, policy_oids,
  validation_level,
}
use ssl_certificate_verifier.Cert.Sct.{has_ocsp_must_staple, embedded_sct_count}
use ssl_certificate_verifier.Cert.Info.Time.{days_between}

abbrev is_no_error : Option Text → Bool
is_no_error none = true
is_no_error (some e) = false

unfoldable pub is_self_signed : X509 → Option Certificate → Bool
is_self_signed x none = false
is_self_signed x (some cert) = is_no_error (x.check_signature_from cert cert)

-- The status at the time `now`.
unfoldable pub cert_status : Certificate → Instant → Text
cert_status cert now =
    if ltb_ℤ now cert.not_before
    then codes "not_yet_valid"
    else if ltb_ℤ cert.not_after now
    then codes "expired"
    else codes "valid"

pub cert_role : ℕ → Bool → Text
cert_role i self_signed =
    if i == 0 then codes "leaf" else if self_signed then codes "root" else codes "intermediate"

-- `ipStrings` and `uriStrings` collect the results of `String()`.
unfoldable pub ip_strings : Certificate → List Text
ip_strings cert = cert.ip_addresses

unfoldable pub uri_strings : Certificate → List Text
uri_strings cert = cert.uris

-- The body of the loop of `CertificatesInfo`.
unfoldable pub certificate_info : X509 → Bool → Instant → ℕ → Certificate → Outcome CertificateInfo
certificate_info x include_pem now i cert = do
  sct_count ← embedded_sct_count (some cert)
  let self_signed = is_self_signed x (some cert)
  ok (record {
    index = i;
    role = cert_role i self_signed;
    version = cert.version;
    subject = cert.subject.text;
    subject_common_name = cert.subject.common_name;
    subject_organization = cert.subject.organization;
    subject_country = cert.subject.country;
    subject_locality = cert.subject.locality;
    issuer = cert.issuer.text;
    issuer_common_name = cert.issuer.common_name;
    issuer_organization = cert.issuer.organization;
    issuer_country = cert.issuer.country;
    serial_number = cert.serial_decimal;
    serial_number_hex = to_upper cert.serial_hex;
    not_before = cert.not_before;
    not_after = cert.not_after;
    days_remaining = days_between cert.not_after now;
    status = cert_status cert now;
    dns_names = cert.dns_names;
    wildcard_dns_names = wildcard_dns_names cert.dns_names;
    ip_addresses = ip_strings cert;
    email_addresses = cert.email_addresses;
    uris = uri_strings cert;
    is_ca = cert.is_ca;
    is_self_signed = self_signed;
    basic_constraints_valid = cert.basic_constraints_valid;
    max_path_len = cert.max_path_len;
    max_path_len_zero = cert.max_path_len_zero;
    certificate_policies = policy_oids cert;
    validation_level = validation_level cert;
    key_usage = key_usage_names cert.key_usage;
    ext_key_usage = ext_key_usage_names cert.ext_key_usage;
    public_key_algorithm = cert.public_key_algorithm;
    public_key_size = public_key_size cert.public_key;
    public_key_sha256 = public_key_sha256 x (some cert);
    signature_algorithm = cert.signature_algorithm;
    fingerprint_md5 = fingerprint_md5 x cert.raw;
    fingerprint_sha1 = fingerprint_sha1 x cert.raw;
    fingerprint_sha256 = fingerprint_sha256 x cert.raw;
    subject_key_id = colon_hex cert.subject_key_id;
    authority_key_id = colon_hex cert.authority_key_id;
    ocsp_servers = cert.ocsp_server;
    ocsp_must_staple = has_ocsp_must_staple (some cert);
    issuing_certificate_urls = cert.issuing_certificate_url;
    crl_distribution_points = cert.crl_distribution_points;
    embedded_sct_count = sct_count;
    pem = if include_pem then x.encode_pem cert.raw else [];
  })

-- The loop from index `i` on.
unfoldable pub certificates_from :
    X509 → Bool → Instant → ℕ → List Certificate → Outcome (List CertificateInfo)
certificates_from x include_pem now i [] = ok []
certificates_from x include_pem now i (cert ∷ certs) = do
  info ← certificate_info x include_pem now i cert
  infos ← certificates_from x include_pem now (i + 1) certs
  ok (info ∷ infos)

unfoldable pub certificates_info :
    X509 → List Certificate → Bool → Instant → Outcome (List CertificateInfo)
certificates_info x certs include_pem now = certificates_from x include_pem now 0 certs

unfoldable pub compact_cert_name : Option Certificate → Text
compact_cert_name none = []
compact_cert_name (some cert) =
    if is_empty cert.subject.common_name
    then (if is_empty cert.dns_names then cert.subject.text else head_or [] cert.dns_names)
    else cert.subject.common_name

unfoldable pub cert_label : Option Certificate → Text
cert_label none = []
cert_label (some cert) =
    let cn = compact_cert_name (some cert) in
    if is_empty cn then codes "serial=" ++ cert.serial_decimal else cn
