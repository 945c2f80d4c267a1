-- ===== src/Tls/Names.antt =====
-- internal/checker/tls.go: `normalizeTimeout`, `sniName` and `verifyName`.
use ssl_certificate_verifier.Base.{[], Text, is_empty, not, if◌then◌else◌}
use ssl_certificate_verifier.Base.Int.{pos, leb_ℤ}
use ssl_certificate_verifier.Types.{Options, Target, Duration}

abbrev pub second : Duration
second = pos 1000000000

abbrev default_timeout : Duration
default_timeout = pos 10000000000

unfoldable pub normalize_timeout : Duration → Duration
normalize_timeout timeout = if leb_ℤ timeout (pos 0) then default_timeout else timeout

unfoldable pub sni_name : Target → Options → Text
sni_name target opt =
    if not (is_empty opt.server_name)
    then opt.server_name
    else if target.is_ip
    then []
    else target.host

unfoldable pub verify_name : Target → Options → Text
verify_name target opt =
    if opt.no_hostname
    then []
    else if not (is_empty opt.verify_name)
    then opt.verify_name
    else if not (is_empty opt.server_name)
    then opt.server_name
    else target.host
