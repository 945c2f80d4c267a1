-- ===== src/Render.antt =====
-- internal/checker/render.go: `RenderText`, as its lines.
pub mod Words
pub mod Ciphers
pub mod Network
pub mod Trust
pub mod Complete
use ssl_certificate_verifier.Base.{List, [], ◌∷◌, ◌++◌, Text, codes, Option, none, some}
use ssl_certificate_verifier.Strings.{itoa_ℤ}
use ssl_certificate_verifier.Types.{Result}
use ssl_certificate_verifier.Render.Words.{unlines}
use ssl_certificate_verifier.Render.Network.{dns_lines, tls_lines, http_lines}
use ssl_certificate_verifier.Render.Trust.{
  Layouts, verification_lines, certificates_lines, chains_lines, security_lines, warning_lines,
  error_lines,
}

abbrev target_line : Result → Text
target_line r =
    codes "Target:      "
    ++ (r.target.scheme
        ++ (codes "://"
            ++ (r.target.host ++ (codes ":" ++ (itoa_ℤ r.target.port ++ r.target.path)))))

unfoldable pub head_lines : Layouts → Result → List Text
head_lines layouts r =
    codes "SSL Certificate Verifier report"
    ∷ codes "================================"
    ∷ target_line r
    ∷ (codes "Address:     " ++ r.target.address)
    ∷ (codes "Checked:     " ++ layouts.rfc3339 r.checked_at)
    ∷ (codes "Duration:    " ++ (itoa_ℤ r.duration_millis ++ codes " ms"))
    ∷ (codes "Protocol:    " ++ r.protocol)
    ∷ []

unfoldable pub report_lines : Layouts → Result → List Text
report_lines layouts r =
    head_lines layouts r
    ++ (dns_lines r
        ++ (tls_lines r.tls
            ++ (http_lines r.http
                ++ (verification_lines r.verification
                    ++ (certificates_lines layouts r.certificates
                        ++ (chains_lines r.verification.verified_chains
                            ++ (security_lines r.security
                                ++ (warning_lines r.warnings
                                    ++ error_lines r.errors r.verification.errors))))))))

unfoldable pub render_text : Layouts → Option Result → Text
render_text layouts none = []
render_text layouts (some r) = unlines (report_lines layouts r)
