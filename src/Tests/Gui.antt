-- ===== src/Tests/Gui.antt =====
-- internal/gui/server.go: requests to the web interface over the environment of Tests.Run.
use ssl_certificate_verifier.Base.{ℕ, ◌≡◌, refl, true, false, [], codes, is_empty, inr, ok, Returns}
use ssl_certificate_verifier.Base.Int.{pos, negsuc}
use ssl_certificate_verifier.Strings.{text_runs, trim_space}
use ssl_certificate_verifier.Types.{empty_options}
use ssl_certificate_verifier.Gui.{
  CheckRequest, Request, Service, method_not_allowed, check_api, handler, int64,
}
use ssl_certificate_verifier.Gui.Secured.{IsQuiet, handler-IsQuiet}
use ssl_certificate_verifier.Tests.Run.{env}
use ssl_certificate_verifier.Tests.Kubernetes.{urls_read}

abbrev asked : CheckRequest
asked = record {
  target = codes "a.b";
  port = pos 0;
  server_name = [];
  verify_name = [];
  timeout_seconds = pos 5;
  tls_min = [];
  tls_max = [];
  ca_file = [];
  no_hostname = false;
  include_pem = false;
  skip_tls_probe = true;
  skip_dns = true;
  skip_http = true;
  skip_ciphers = true;
  force_tls = false;
}

abbrev pub service : Service (ℕ × ℕ)
service = record { decode = λ body. inr asked; with_timeout = λ d w. w; cancel = λ w. w }

abbrev posted : Request
posted = record { method = codes "POST"; path = codes "/api/check"; body = [] }

get_refused :
    (check_api env service empty_options (record posted { method = codes "GET" }) (0, 0)).0
    ≡ ok method_not_allowed
unfolding check_api text_runs
get_refused = refl

-- A timeout of 2 ^ 63 / 10 ^ 9 seconds, rounded up, is negative.
timeout_wraps : int64 (pos 9223372037000000000) ≡ negsuc 9223372036709551615
unfolding int64
timeout_wraps = refl

max_age : is_empty (trim_space (codes "max-age=31536000")) ≡ false
unfolding text_runs
max_age = refl

handler-IsQuiet_example :
    Returns
      (IsQuiet (codes "max-age=31536000") (pos 200) [])
      (handler env service empty_options posted (0, 0)).0
handler-IsQuiet_example =
    handler-IsQuiet env service empty_options posted (0, 0) (codes "max-age=31536000") (pos 200) []
      max_age urls_read
