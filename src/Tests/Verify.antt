-- ===== src/Tests/Verify.antt =====
-- internal/checker/verify.go on a concrete verifier.
use ssl_certificate_verifier.Base.{
  ◌≡◌, refl, true, false, List, [], ◌∷◌, if◌then◌else◌, Text, codes, str_eq, any, Option, none,
  some,
}
use ssl_certificate_verifier.Base.Int.{pos}
use ssl_certificate_verifier.Strings.{text_runs}
use ssl_certificate_verifier.Types.{Options, empty_options, Target, VerificationInfo}
use ssl_certificate_verifier.X509.{Certificate}
use ssl_certificate_verifier.Tls.Names.{verify_name}
use ssl_certificate_verifier.Verify.Roots.{Verifier, load_roots}
use ssl_certificate_verifier.Verify.{add_full_error, verify_peer_certificates}
use ssl_certificate_verifier.Verify.Laws.{IsVerified, verify_peer_certificates-IsVerified}
use ssl_certificate_verifier.Tests.Cert.{x509, certificate}

abbrev host_error : Certificate → Text → Option Text
host_error cert name = if any (λ n. str_eq n name) cert.dns_names then none else some (codes "name")

abbrev name_error : Certificate → Text → Option Text
name_error cert [] = none
name_error cert (c ∷ name) = host_error cert (c ∷ name)

abbrev pub verifier : Verifier (List Certificate)
verifier = record {
  system_cert_pool = (none, none);
  new_cert_pool = [];
  append_certs_from_pem = λ pool pem. (pool, true);
  add_cert = λ pool cert. cert ∷ pool;
  read_file = λ name. ([], some (codes "no such file"));
  verify = λ cert opts. ((cert ∷ []) ∷ [], name_error cert opts.dns_name);
  verify_hostname = host_error;
}

abbrev pub target : Target
target = record {
  input = codes "a.b";
  scheme = codes "https";
  host = codes "a.b";
  port = pos 443;
  path = codes "/";
  address = codes "a.b:443";
  is_ip = false;
}

abbrev info : Options → VerificationInfo
info opt = (verify_peer_certificates x509 verifier (certificate ∷ []) target opt (pos 15)).0

no_errors : (info empty_options).errors ≡ []
unfolding verify_peer_certificates verify_name load_roots add_full_error text_runs
no_errors = refl

verify_peer_certificates-IsVerified_example : IsVerified (info empty_options)
verify_peer_certificates-IsVerified_example =
    verify_peer_certificates-IsVerified x509 verifier (certificate ∷ []) target empty_options
      (pos 15) no_errors

-- A file of roots that cannot be read is reported, and the rest goes on.
abbrev with_file : Options
with_file = record empty_options { ca_file = codes "ca.pem" }

file_error : (info with_file).errors ≡ codes "roots: no such file" ∷ []
unfolding verify_peer_certificates verify_name load_roots add_full_error text_runs
file_error = refl

file_verified : (info with_file).verified ≡ true
unfolding verify_peer_certificates verify_name load_roots add_full_error text_runs
file_verified = refl

abbrev no_hostname : Options
no_hostname = record empty_options { no_hostname = true }
