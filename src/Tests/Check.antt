-- ===== src/Tests/Check.antt =====
-- internal/checker/check.go: `checkTLS` on the network of Tests.Network.
use ssl_certificate_verifier.Base.{◌≡◌, [], ◌∷◌, codes, Returns}
use ssl_certificate_verifier.Types.{empty_options, Result}
use ssl_certificate_verifier.Check.{check_tls}
use ssl_certificate_verifier.Check.Warnings.{IsChecked, check_tls-IsChecked}
use ssl_certificate_verifier.Check.Closed.{check_tls-closed}
use ssl_certificate_verifier.Tests.Cert.{x509}
use ssl_certificate_verifier.Tests.Verify.{verifier, target}
use ssl_certificate_verifier.Tests.Security.{report}
use ssl_certificate_verifier.Tests.Network.{network, network-Counts}

-- A report with a warning of the DNS lookups.
abbrev warned : Result
warned = record report { warnings = codes "dns: A lookup failed: timeout" ∷ [] }

check_tls-IsChecked_example :
    Returns
      (IsChecked x509 verifier network target empty_options 0 0 0 warned)
      (check_tls x509 verifier network target empty_options 0 0 warned 0).0
check_tls-IsChecked_example =
    check_tls-IsChecked x509 verifier network target empty_options 0 0 warned 0

check_tls-closed_example : (check_tls x509 verifier network target empty_options 0 0 warned 3).1 ≡ 3
check_tls-closed_example =
    check_tls-closed x509 verifier network (λ w. w) target empty_options 0 0 warned 3 network-Counts
