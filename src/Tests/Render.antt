-- ===== src/Tests/Render.antt =====
-- internal/checker/render.go on concrete reports.
use ssl_certificate_verifier.Base.{ℕ, ◌≡◌, refl, true, false, List, [], ◌∷◌, ◌++◌, codes, zero, suc}
use ssl_certificate_verifier.Strings.{text_runs}
use ssl_certificate_verifier.Types.{TlsCipherSupport}
use ssl_certificate_verifier.Render.{report_lines}
use ssl_certificate_verifier.Render.Words.{join_limit, accepted_cipher_count, pad, blanks}
use ssl_certificate_verifier.Render.Ciphers.{cipher_lines, cipher_loop}
use ssl_certificate_verifier.Render.Complete.{IsShown, report_lines-IsShown}
use ssl_certificate_verifier.Render.Trust.{Layouts}
use ssl_certificate_verifier.Tests.Security.{report}

abbrev layouts : Layouts
layouts = record { rfc3339 = λ t. codes "now"; date = λ t. codes "today" }

abbrev suite : TlsCipherSupport
suite = record {
  version = codes "TLS 1.2";
  id = codes "0xC02F";
  name = codes "TLS_ECDHE_RSA_WITH_AES_128_GCM_SHA256";
  supported = true;
  insecure = false;
  strength = codes "strong";
  forward_secrecy = true;
  aead = true;
  cbc = false;
  rc4 = false;
  triple_des = false;
  error = [];
}

abbrev repeated : ℕ → List TlsCipherSupport
repeated zero = []
repeated (suc n) = suite ∷ repeated n

limited : join_limit (codes "a" ∷ codes "b" ∷ codes "c" ∷ []) 2 ≡ codes "a, b ... +1 more"
unfolding join_limit text_runs
limited = refl

padded : pad 7 (codes "TLS") ++ codes "|" ≡ codes "TLS    |"
unfolding pad blanks text_runs
padded = refl

no_suite : cipher_lines (record suite { supported = false } ∷ []) ≡ codes "  -" ∷ []
unfolding cipher_lines cipher_loop accepted_cipher_count text_runs
no_suite = refl

report_lines-IsShown_example : IsShown layouts report (report_lines layouts report)
report_lines-IsShown_example = report_lines-IsShown layouts report
