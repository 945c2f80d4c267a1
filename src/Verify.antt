-- ===== src/Verify.antt =====
-- internal/checker/verify.go: `verifyPeerCertificates`. The verifier and the pools of crypto/x509,
-- and the reading of files, are the fields of a parameter; a method that may fail gives its result
-- and its error, as in the source.
pub mod Roots
pub mod Chain
pub mod Laws
use ssl_certificate_verifier.Base.{
  ℕ, Bool, true, false, not, ◌&&◌, ◌||◌, List, [], ◌∷◌, ◌++◌, if◌then◌else◌, Text, codes, str_eq,
  is_empty, any, Option, none, some,
}
use ssl_certificate_verifier.Base.Int.{ltb_ℤ}
use ssl_certificate_verifier.Types.{
  Options, Target, Instant, VerificationInfo, VerifiedChain, empty_verification_info,
}
use ssl_certificate_verifier.X509.{X509, Certificate}
use ssl_certificate_verifier.Tls.Names.{verify_name}
use ssl_certificate_verifier.Tls.ShortError.{short_error}
use ssl_certificate_verifier.Cert.Info.{is_self_signed}
use ssl_certificate_verifier.Verify.Roots.{Verifier, VerifyOptions, load_roots, is_none}
use ssl_certificate_verifier.Verify.Chain.{chain_warnings, convert_chains}

pub contains_error : List Text → Text → Bool
contains_error existing needle =
    any
      (λ e.
        str_eq e needle
        || str_eq e (codes "verification: " ++ needle)
        || str_eq e (codes "chain: " ++ needle)
        || str_eq e (codes "hostname: " ++ needle))
      existing

-- The line that is added to the errors for an error.
abbrev pub error_line : Text → Option Text → List Text
error_line prefix none = []
error_line prefix (some e) = (prefix ++ short_error (some e)) ∷ []

abbrev pub root_line : Option Text → List Text
root_line none = []
root_line (some e) = (codes "roots: " ++ e) ∷ []

-- The error of the whole verification is added if no part has reported it.
unfoldable pub add_full_error : List Text → Option Text → List Text
add_full_error errors none = errors
add_full_error errors (some e) =
    if not (contains_error errors (short_error (some e)))
    then errors ++ (codes "verification: " ++ short_error (some e)) ∷ []
    else errors

abbrev disabled_warning : Bool → Options → List Text
disabled_warning true opt = []
disabled_warning false opt =
    if opt.no_hostname then codes "hostname verification was explicitly disabled" ∷ [] else []

abbrev pub server_auth : List ℕ
server_auth = 1 ∷ []

-- `certs[1:]` are the intermediates.
abbrev add_certs : {Pool : Type 0} → Verifier Pool → Pool → List Certificate → Pool
add_certs v pool [] = pool
add_certs v pool (cert ∷ certs) = add_certs v (v.add_cert pool cert) certs

-- `baseOpts`.
abbrev base_options :
    {Pool : Type 0} → Verifier Pool → Pool → List Certificate → Instant → VerifyOptions Pool
base_options v roots rest now = record {
  roots = roots;
  intermediates = add_certs v v.new_cert_pool rest;
  current_time = now;
  key_usages = server_auth;
  dns_name = [];
}

-- `fullOpts`.
abbrev pub full_options : {Pool : Type 0} → VerifyOptions Pool → Text → VerifyOptions Pool
full_options base name = if is_empty name then base else record base { dns_name = name }

abbrev pub uses_custom_ca : Options → Bool
uses_custom_ca opt = not (is_empty opt.ca_file) || not (is_empty opt.ca_bundle_pem)

-- The chains of the whole verification, and those of the chain alone if there are none.
abbrev chains_of : X509 → List (List Certificate) → List (List Certificate) → List VerifiedChain
chains_of x [] [] = []
chains_of x [] (chain ∷ chains) = convert_chains x (chain ∷ chains)
chains_of x (chain ∷ chains) chain_only = convert_chains x (chain ∷ chains)

unfoldable pub verify_peer_certificates :
    {Pool : Type 0}
    → X509
    → Verifier Pool
    → List Certificate
    → Target
    → Options
    → Instant
    → VerificationInfo × List Text
verify_peer_certificates x v [] target opt now = (
  record empty_verification_info {
    checked = false;
    uses_custom_ca = uses_custom_ca opt;
    verify_name = verify_name target opt;
    hostname_checked = not opt.no_hostname;
    errors = codes "no peer certificates were presented" ∷ [];
  },
  [],
)
verify_peer_certificates x v (leaf ∷ rest) target opt now =
    let name = verify_name target opt in
    let loaded = load_roots v opt.ca_file opt.ca_bundle_pem in
    let base = base_options v loaded.0 rest now in
    let chain_only = v.verify leaf base in
    let hostname_checked = not (is_empty name) in
    let host_error = if hostname_checked then v.verify_hostname leaf name else none in
    let full = v.verify leaf (full_options base name) in
    let errors =
      root_line loaded.2
      ++ (error_line (codes "chain: ") chain_only.1
          ++ error_line (codes "hostname: ") host_error) in
    (
      record {
        checked = true;
        verified = is_none full.1;
        chain_verified = is_none chain_only.1;
        hostname_checked = hostname_checked;
        hostname_verified = is_none host_error;
        root_trusted = is_none chain_only.1;
        chain_complete = is_none chain_only.1;
        expired = ltb_ℤ leaf.not_after now;
        not_yet_valid = ltb_ℤ now leaf.not_before;
        self_signed_leaf = is_self_signed x (some leaf);
        uses_custom_ca = uses_custom_ca opt;
        verify_name = name;
        errors = add_full_error errors full.1;
        verified_chains = chains_of x full.0 chain_only.0;
      },
      loaded.1
          ++ (disabled_warning hostname_checked opt ++ chain_warnings x (leaf ∷ rest) chain_only.1),
    )
