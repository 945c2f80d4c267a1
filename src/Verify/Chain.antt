-- ===== src/Verify/Chain.antt =====
-- internal/checker/verify.go: `chainWarnings` and `convertChains`.
use ssl_certificate_verifier.Base.{
  ℕ, ◌+◌, Bool, true, false, not, ◌&&◌, List, [], ◌∷◌, ◌++◌, ltb, if◌then◌else◌, Text, codes,
  is_empty, Option, none, some,
}
use ssl_certificate_verifier.Strings.{itoa}
use ssl_certificate_verifier.Types.{ChainCertificate, VerifiedChain}
use ssl_certificate_verifier.X509.{X509, Certificate}
use ssl_certificate_verifier.Tls.ShortError.{short_error}
use ssl_certificate_verifier.Cert.Hex.{fingerprint_sha256}
use ssl_certificate_verifier.Cert.Info.{is_self_signed, cert_label}

abbrev root_warning : ℕ → Text
root_warning i =
    codes "server-sent certificate "
    ++ (itoa i
        ++ codes
            " appears to be a root/self-signed certificate; servers normally send leaf plus intermediates, not the root")

abbrev order_warning : ℕ → Certificate → Certificate → Option Text → List Text
order_warning i cert next none = []
order_warning i cert next (some e) =
    (codes "server-sent chain order/signature issue between certificate "
      ++ (itoa i
          ++ (codes " ("
              ++ (cert_label (some cert)
                  ++ (codes ") and "
                      ++ (itoa (i + 1)
                          ++ (codes " ("
                              ++ (cert_label (some next)
                                  ++ (codes "): " ++ short_error (some e))))))))))
    ∷ []

-- The check of a certificate against the one behind it.
abbrev next_warning : X509 → ℕ → Certificate → List Certificate → List Text
next_warning x i cert [] = []
next_warning x i cert (next ∷ certs) = order_warning i cert next (x.check_signature_from cert next)

-- The loop, from index `i` on.
unfoldable pub warnings_from : X509 → ℕ → List Certificate → List Text
warnings_from x i [] = []
warnings_from x i (cert ∷ certs) =
    (if ltb 0 i && is_self_signed x (some cert) then root_warning i ∷ [] else [])
    ++ (next_warning x i cert certs ++ warnings_from x (i + 1) certs)

-- `chainErr != nil`.
abbrev has_failed : Option Text → Bool
has_failed none = false
has_failed (some e) = true

unfoldable pub chain_warnings : X509 → List Certificate → Option Text → List Text
chain_warnings x [] chain_error = []
chain_warnings x (leaf ∷ certs) chain_error =
    (if has_failed chain_error && is_empty certs && not (is_self_signed x (some leaf))
      then codes
          "the server sent only the leaf certificate; an intermediate certificate may be missing"
        ∷ []
      else [])
    ++ warnings_from x 0 (leaf ∷ certs)

-- The last certificate of a chain is its root.
unfoldable pub chain_certificates : X509 → List Certificate → List ChainCertificate
chain_certificates x [] = []
chain_certificates x (cert ∷ certs) =
    record {
      subject = cert.subject.text;
      issuer = cert.issuer.text;
      common_name = cert.subject.common_name;
      is_ca = cert.is_ca;
      is_root = is_empty certs;
      not_after = cert.not_after;
      fingerprint_sha256 = fingerprint_sha256 x cert.raw;
    }
    ∷ chain_certificates x certs

-- The loop of `convertChains`, from index `i` on.
unfoldable pub chains_from : X509 → ℕ → List (List Certificate) → List VerifiedChain
chains_from x i [] = []
chains_from x i (chain ∷ chains) =
    record { chain = i; certificates = chain_certificates x chain } ∷ chains_from x (i + 1) chains

unfoldable pub convert_chains : X509 → List (List Certificate) → List VerifiedChain
convert_chains x chains = chains_from x 0 chains
