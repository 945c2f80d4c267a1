-- ===== src/Verify/Laws.antt =====
-- What a verification reports.
use ssl_certificate_verifier.Base.{
  ◌≡◌, refl, arith, true, false, List, [], ◌∷◌, ◌++◌, Text, any, Option, none, some,
}
use ssl_certificate_verifier.Types.{Options, Target, Instant, VerificationInfo}
use ssl_certificate_verifier.X509.{X509, Certificate}
use ssl_certificate_verifier.Tls.Names.{verify_name}
use ssl_certificate_verifier.Verify.Roots.{Verifier, is_none}
use ssl_certificate_verifier.Verify.{
  contains_error, error_line, add_full_error, verify_peer_certificates,
}

append_nil : (xs ys : List Text) → xs ++ ys ≡ [] → (xs ≡ []) × (ys ≡ [])
append_nil [] ys e = (refl, e)
append_nil (x ∷ xs) ys e = cc

-- A verification without an error has verified everything that it looked at.
pub record IsVerified (info : VerificationInfo) : Type 0 where
  pub is_checked : info.checked ≡ true
  pub is_verified : info.verified ≡ true
  pub is_chain_verified : info.chain_verified ≡ true
  pub is_hostname_verified : info.hostname_verified ≡ true

error_line_nil : (prefix : Text) (e : Option Text) → error_line prefix e ≡ [] → is_none e ≡ true
error_line_nil prefix none h = refl
error_line_nil prefix (some e) h = cc

add_full_error_nil :
    (errors : List Text) (e : Option Text)
    → add_full_error errors e ≡ []
    → (errors ≡ []) × (is_none e ≡ true)
unfolding add_full_error contains_error any
add_full_error_nil errors none h = (h, refl)
add_full_error_nil [] (some e) h = cc
add_full_error_nil (x ∷ errors) (some e) h = ground arith

-- If a verification reports no error, there was a certificate, and its chain, its name and the
-- whole were verified, for any verifier.
pub verify_peer_certificates-IsVerified :
    {Pool : Type 0} (x : X509) (v : Verifier Pool) (certs : List Certificate) (target : Target)
    (opt : Options) (now : Instant)
    → (verify_peer_certificates x v certs target opt now).0.errors ≡ []
    → IsVerified (verify_peer_certificates x v certs target opt now).0
unfolding verify_peer_certificates
verify_peer_certificates-IsVerified x v [] target opt now h = cc
verify_peer_certificates-IsVerified x v (leaf ∷ rest) target opt now h =
    let (parts, full) = add_full_error_nil _ _ h in
    let (no_root, others) = append_nil _ _ parts in
    let (no_chain, no_host) = append_nil _ _ others in
    record {
      is_checked = refl;
      is_verified = full;
      is_chain_verified = error_line_nil _ _ no_chain;
      is_hostname_verified = error_line_nil _ _ no_host;
    }

-- With the check of the name disabled, the verdict is that of the chain alone, and the name counts
-- as verified and as not checked.
pub verify_peer_certificates-no_hostname :
    {Pool : Type 0} (x : X509) (v : Verifier Pool) (leaf : Certificate) (rest : List Certificate)
    (target : Target) (opt : Options) (now : Instant)
    → opt.no_hostname ≡ true
    → let info = (verify_peer_certificates x v (leaf ∷ rest) target opt now).0 in
      (info.verified ≡ info.chain_verified)
      × (info.hostname_checked ≡ false)
      × (info.hostname_verified ≡ true)
      × (info.verify_name ≡ [])
unfolding verify_peer_certificates verify_name
verify_peer_certificates-no_hostname x v leaf rest target opt now h = rw h (refl, refl, refl, refl)
