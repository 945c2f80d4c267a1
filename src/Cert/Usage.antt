-- ===== src/Cert/Usage.antt =====
-- internal/checker/cert.go: `keyUsageNames`, `extKeyUsageNames`, `wildcardDNSNames`,
-- `publicKeySize`, `policyOIDs` and `validationLevel`.
use ssl_certificate_verifier.Base.{
  ℕ, ◌+◌, ◌*◌, not, List, [], ◌∷◌, ◌++◌, bit_and, ◌==◌, if◌then◌else◌, Text, codes, str_eq,
  is_empty, length,
}
use ssl_certificate_verifier.Strings.{has_prefix, itoa}
use ssl_certificate_verifier.X509.{Certificate, PublicKey, rsa, ecdsa, ed25519, other_key}

-- The bits of `x509.KeyUsage` with their names, in the order of the source.
abbrev usage_checks : List (ℕ × Text)
usage_checks =
    (1, codes "digital_signature")
    ∷ (2, codes "content_commitment")
    ∷ (4, codes "key_encipherment")
    ∷ (8, codes "data_encipherment")
    ∷ (16, codes "key_agreement")
    ∷ (32, codes "cert_sign")
    ∷ (64, codes "crl_sign")
    ∷ (128, codes "encipher_only")
    ∷ (256, codes "decipher_only")
    ∷ []

unfoldable pub names_of : ℕ → List (ℕ × Text) → List Text
names_of usage [] = []
names_of usage ((bit, name) ∷ checks) =
    if not (bit_and usage bit == 0) then name ∷ names_of usage checks else names_of usage checks

unfoldable pub key_usage_names : ℕ → List Text
key_usage_names usage = names_of usage usage_checks

-- `x509.ExtKeyUsage` counts from 0 in this order.
abbrev ext_usage_names : List Text
ext_usage_names =
    codes "any"
    ∷ codes "server_auth"
    ∷ codes "client_auth"
    ∷ codes "code_signing"
    ∷ codes "email_protection"
    ∷ codes "ipsec_end_system"
    ∷ codes "ipsec_tunnel"
    ∷ codes "ipsec_user"
    ∷ codes "time_stamping"
    ∷ codes "ocsp_signing"
    ∷ codes "microsoft_server_gated_crypto"
    ∷ codes "netscape_server_gated_crypto"
    ∷ codes "microsoft_commercial_code_signing"
    ∷ codes "microsoft_kernel_code_signing"
    ∷ []

-- The switch over the constants from `k` on.
unfoldable pub ext_usage_name : ℕ → ℕ → List Text → Text
ext_usage_name usage k [] = codes "unknown_" ++ itoa usage
ext_usage_name usage k (name ∷ names) =
    let others = ext_usage_name usage (k + 1) names in if usage == k then name else others

unfoldable pub ext_key_usage_names : List ℕ → List Text
ext_key_usage_names [] = []
ext_key_usage_names (usage ∷ usages) =
    ext_usage_name usage 0 ext_usage_names ∷ ext_key_usage_names usages

unfoldable pub wildcard_dns_names : List Text → List Text
wildcard_dns_names [] = []
wildcard_dns_names (name ∷ names) =
    if has_prefix name (codes "*.")
    then name ∷ wildcard_dns_names names
    else wildcard_dns_names names

unfoldable pub public_key_size : PublicKey → ℕ
public_key_size (rsa bits) = bits
public_key_size (ecdsa bits) = bits
public_key_size (ed25519 key) = length key * 8
public_key_size other_key = 0

unfoldable pub policy_oids : Certificate → List Text
policy_oids cert = cert.policy_identifiers

-- The loop of `validationLevel`; the first argument is the organization.
unfoldable pub level_of : List Text → List Text → Text
level_of organization [] =
    if not (is_empty organization)
    then codes "organization_present"
    else codes "domain_validated_or_unknown"
level_of organization (policy ∷ policies) =
    let rest = level_of organization policies in
    if str_eq policy (codes "2.23.140.1.1")
    then codes "ev"
    else if str_eq policy (codes "2.23.140.1.2.2")
    then codes "ov"
    else if str_eq policy (codes "2.23.140.1.2.1")
    then codes "dv"
    else rest

unfoldable pub validation_level : Certificate → Text
validation_level cert = level_of cert.subject.organization (policy_oids cert)
