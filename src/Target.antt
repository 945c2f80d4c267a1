-- ===== src/Target.antt =====
-- internal/checker/parse.go. The URL parser and the IP address parser of Go's standard library are
-- the fields of a parameter.
pub mod Port
pub mod Bounds
pub mod RoundTrip
pub mod Safe
use ssl_certificate_verifier.Base.{
  ℕ, ◌+◌, ◌≤◌, Bool, true, false, not, ◌&&◌, ◌||◌, [], ◌∷◌, ◌++◌, ◌==◌, if◌then◌else◌, Text, codes,
  str_eq, is_empty, any, length, slice, Option, none, some, Outcome, ok, err, panic, ◌>>=◌,
}
use ssl_certificate_verifier.Base.Int.{ℤ, pos, ltb_ℤ}
use ssl_certificate_verifier.Strings.{
  trim_space, trim, to_lower, contains, count_byte, last_index_byte, has_prefix, has_suffix,
  split_host_port, join_host_port, itoa_ℤ, quote, is_digit,
}
use ssl_certificate_verifier.Types.{Options, Target}
use ssl_certificate_verifier.Target.Port.{parse_port}

-- What the program reads of a `url.URL`: its field `Scheme` and `RawQuery`, and the results of
-- `Hostname`, `Port` and `EscapedPath`.
pub record Url : Type 0 where
  pub scheme : Text
  pub hostname : Text
  pub port : Text
  pub escaped_path : Text
  pub raw_query : Text

-- `url.Parse`, and whether `net.ParseIP` gives an address.
pub record Syntax : Type 0 where
  pub parse_url : Text → Outcome Url
  pub is_ip : Text → Bool

-- The results of `splitHostPortLoose`.
pub record Loose : Type 0 where
  pub host : Text
  pub port : ℤ
  pub has_port : Bool

unfoldable pub all_digits : Text → Bool
all_digits s = not (any (λ r. not (is_digit r)) s) && not (is_empty s)

abbrev brackets : Text → Text
brackets s = trim s (b'[' ∷ b']' ∷ [])

abbrev bare : Text → Loose
bare s = record { host = s; port = pos 0; has_port = false }

-- The branch for one colon and a numeric suffix, at the last colon.
unfoldable pub split_at_colon : Text → Option ℕ → Outcome Loose
split_at_colon trimmed none = panic
split_at_colon trimmed (some idx) = do
  suffix ← slice trimmed (idx + 1) (length trimmed)
  if not (is_empty suffix) && all_digits suffix
      then (do
        port ← parse_port suffix
        host ← slice trimmed 0 idx
        ok (record { host = host; port = port; has_port = true }))
      else ok (bare (brackets trimmed))

unfoldable pub split_suffix : Text → Outcome Loose
split_suffix trimmed =
    if count_byte trimmed b':' == 1
    then split_at_colon trimmed (last_index_byte trimmed b':')
    else ok (bare (brackets trimmed))

unfoldable pub split_bracketed : Syntax → Text → Outcome Loose
split_bracketed syn trimmed =
    if has_prefix trimmed (codes "[") && has_suffix trimmed (codes "]")
    then (let inside = brackets trimmed in
        if not (syn.is_ip inside)
        then err (codes "invalid bracketed IP address " ++ quote trimmed)
        else ok (bare inside))
    else split_suffix trimmed

-- The first form, `host:port` and `[IPv6]:port`, and the others behind it.
unfoldable pub split_forms : Syntax → Text → Option (Text × Text) → Outcome Loose
split_forms syn trimmed (some (h, p)) = do
  port ← parse_port p
  ok (record { host = brackets h; port = port; has_port = true })
split_forms syn trimmed none = split_bracketed syn trimmed

unfoldable pub split_host_port_loose : Syntax → Text → Outcome Loose
split_host_port_loose syn raw =
    let trimmed = trim_space raw in
    if is_empty trimmed
    then err (codes "target is empty")
    else split_forms syn trimmed (split_host_port trimmed)

-- The target before it is read, `t` of the source.
abbrev initial_target : Text → Target
initial_target raw = record {
  input = raw;
  scheme = codes "https";
  host = [];
  port = pos 443;
  path = codes "/";
  address = [];
  is_ip = false;
}

abbrev is_http_scheme : Text → Bool
is_http_scheme scheme = str_eq scheme (codes "http") || str_eq scheme (codes "https")

-- The port that a URL names, or the default of its scheme.
unfoldable pub url_port : Url → Text → Outcome ℤ
url_port u scheme =
    if not (is_empty u.port)
    then parse_port u.port
    else ok (if str_eq scheme (codes "http") then pos 80 else pos 443)

unfoldable pub url_path : Url → Text
url_path u =
    let path = if not (is_empty u.escaped_path) then u.escaped_path else codes "/" in
    if not (is_empty u.raw_query) then path ++ (codes "?" ++ u.raw_query) else path

-- The branch of `ParseTarget` for a URL, on the result of the parser.
unfoldable pub url_target : Text → Outcome Url → Outcome Target
url_target raw (err e) = err (codes "parse URL: " ++ e)
url_target raw panic = panic
url_target raw (ok u) =
    let scheme = to_lower u.scheme in
    let host = trim_space u.hostname in
    if not (is_http_scheme scheme)
    then err (codes "unsupported scheme " ++ (quote u.scheme ++ codes "; use http or https"))
    else if is_empty host
    then err (codes "URL host is empty")
    else do
      port ← url_port u scheme
      ok (record (initial_target raw) {
        scheme = scheme;
        host = host;
        port = port;
        path = url_path u;
      })

unfoldable pub parse_url_target : Syntax → Text → Outcome Target
parse_url_target syn raw = url_target raw (syn.parse_url raw)

-- The branch for a host with an optional port.
unfoldable pub parse_bare_target : Syntax → Text → Outcome Target
parse_bare_target syn raw = do
  loose ← split_host_port_loose syn raw
  ok (record (initial_target raw) {
    host = loose.host;
    port = if loose.has_port then loose.port else pos 443;
  })

-- What `ParseTarget` does behind both branches.
unfoldable pub finish_target : Syntax → Options → Target → Outcome Target
finish_target syn opt t =
    let port = if ltb_ℤ (pos 0) opt.port then opt.port else t.port in
    let host = brackets t.host in
    if is_empty t.host
    then err (codes "host is empty")
    else ok (record t {
      port = port;
      host = host;
      is_ip = syn.is_ip host;
      address = join_host_port host (itoa_ℤ port);
    })

unfoldable pub parse_target : Syntax → Text → Options → Outcome Target
parse_target syn input opt =
    let raw = trim_space input in
    if is_empty raw then err (codes "target is empty") else do
      t ← if contains raw (codes "://") then parse_url_target syn raw else parse_bare_target syn raw
      finish_target syn opt t
