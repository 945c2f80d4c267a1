-- ===== src/Tests/Cert.antt =====
-- internal/checker/cert.go on concrete bytes and certificates.
use ssl_certificate_verifier.Base.{
  ℕ, zero, suc, ◌≤◌, ◌≡◌, refl, arith, true, false, List, [], ◌∷◌, ◌++◌, Text, codes, none, some,
  ok, Returns,
}
use ssl_certificate_verifier.Base.Int.{pos, negsuc}
use ssl_certificate_verifier.Strings.{text_runs}
use ssl_certificate_verifier.X509.{X509, Name, rsa, Certificate}
use ssl_certificate_verifier.Cert.Hex.{hex_encode, pairs, colon_hex}
use ssl_certificate_verifier.Cert.Sct.{
  count_entries, count_sct_list, count_in_extensions, embedded_sct_count, sct_oid,
}
use ssl_certificate_verifier.Cert.Sct.Der.{octet_string, count_sct_list-octet_string}
use ssl_certificate_verifier.Cert.Sct.RoundTrip.{wire_sct_list, count_sct_list-wire_sct_list}
use ssl_certificate_verifier.Cert.Info.{certificates_info, cert_label, compact_cert_name}
use ssl_certificate_verifier.Cert.Info.Laws.{ReportsFrom, certificates_info-Returns}
use ssl_certificate_verifier.Cert.Info.Time.{whole_days}

abbrev pub x509 : X509
x509 = record {
  check_signature_from = λ cert parent. none;
  sha256 = λ raw. raw;
  sha1 = λ raw. raw;
  md5 = λ raw. raw;
  marshal_public_key = λ cert. ok cert.raw;
  encode_pem = λ raw. raw;
}

abbrev pub subject : Text → Name
subject cn = record {
  text = codes "CN=" ++ cn;
  common_name = cn;
  organization = [];
  country = [];
  locality = [];
}

abbrev scts : List Text
scts = (1 ∷ 2 ∷ 3 ∷ []) ∷ (4 ∷ []) ∷ []

abbrev pub certificate : Certificate
certificate = record {
  raw = 0xab ∷ 0x01 ∷ [];
  version = pos 3;
  subject = subject (codes "a.b");
  issuer = subject (codes "ca");
  serial_decimal = codes "10";
  serial_hex = codes "a";
  not_before = pos 10;
  not_after = pos 20;
  dns_names = codes "a.b" ∷ [];
  ip_addresses = [];
  email_addresses = [];
  uris = [];
  is_ca = false;
  basic_constraints_valid = true;
  max_path_len = pos 0;
  max_path_len_zero = false;
  policy_identifiers = [];
  key_usage = 1;
  ext_key_usage = 1 ∷ [];
  public_key_algorithm = codes "RSA";
  public_key = rsa 2048;
  signature_algorithm = codes "SHA256-RSA";
  subject_key_id = [];
  authority_key_id = [];
  ocsp_server = [];
  issuing_certificate_url = [];
  crl_distribution_points = [];
  extensions = record { id = sct_oid; value = wire_sct_list scts } ∷ [];
}

fingerprint_text : colon_hex (0xab ∷ 0x01 ∷ []) ≡ codes "AB:01"
unfolding colon_hex pairs hex_encode text_runs
fingerprint_text = refl

two_timestamps : embedded_sct_count (some certificate) ≡ ok 2
unfolding embedded_sct_count count_in_extensions count_sct_list count_entries text_runs
two_timestamps = refl

label_of_certificate : cert_label (some certificate) ≡ codes "a.b"
unfolding cert_label compact_cert_name text_runs
label_of_certificate = refl

count_sct_list-wire_sct_list_example : count_sct_list (wire_sct_list scts) ≡ ok 2
count_sct_list-wire_sct_list_example = count_sct_list-wire_sct_list scts (omega arith)

certificates_info-Returns_example :
    Returns
      (ReportsFrom x509 (pos 15) 0 (certificate ∷ certificate ∷ []))
      (certificates_info x509 (certificate ∷ certificate ∷ []) true (pos 15))
certificates_info-Returns_example =
    certificates_info-Returns x509 (certificate ∷ certificate ∷ []) true (pos 15)

-- A certificate that expired a nanosecond ago has zero days left, as one that will expire in an
-- hour.
just_expired : whole_days (negsuc 0) ≡ pos 0
unfolding whole_days
just_expired = refl

-- Two timestamps of 100 bytes in the form that a certificate has.
abbrev zeros : ℕ → Text
zeros zero = []
zeros (suc n) = 0 ∷ zeros n

abbrev two_long : List Text
two_long = zeros 100 ∷ zeros 100 ∷ []

none_counted : count_sct_list (octet_string (wire_sct_list two_long)) ≡ ok 0
unfolding count_sct_list count_entries text_runs
none_counted = refl

count_sct_list-octet_string_example :
    Returns (λ n. n ≤ 1) (count_sct_list (octet_string (wire_sct_list two_long)))
count_sct_list-octet_string_example =
    count_sct_list-octet_string two_long (omega arith) (omega arith)
