-- ===== src/Tests/Target.antt =====
-- internal/checker/parse.go on concrete targets.
use ssl_certificate_verifier.Base.{
  ◌≡◌, refl, arith, false, [], ◌∷◌, ◌++◌, codes, str_eq, some, ok, err,
}
use ssl_certificate_verifier.Base.Int.{pos}
use ssl_certificate_verifier.Strings.{text_runs, itoa, join_host_port, split_host_port}
use ssl_certificate_verifier.Strings.HostPort.RoundTrip.{split_host_port-join}
use ssl_certificate_verifier.Types.{empty_options, Target}
use ssl_certificate_verifier.Target.{
  Syntax, all_digits, split_at_colon, split_suffix, split_bracketed, split_forms,
  split_host_port_loose, url_port, url_path, url_target, parse_url_target, parse_bare_target,
  finish_target, parse_target,
}
use ssl_certificate_verifier.Target.Port.{parse_port}
use ssl_certificate_verifier.Target.Bounds.{IsTarget, parse_target_sound}
use ssl_certificate_verifier.Target.RoundTrip.{parse_target-address}

-- A parser that knows one address and one URL.
abbrev pub syntax : Syntax
syntax = record {
  parse_url = λ raw. ok (record {
    scheme = codes "http";
    hostname = codes "a.b";
    port = [];
    escaped_path = codes "/x";
    raw_query = codes "q=1";
  });
  is_ip = λ host. str_eq host (codes "10.0.0.1");
}

abbrev bare_result : Target
bare_result = record {
  input = codes "a.b:8443";
  scheme = codes "https";
  host = codes "a.b";
  port = pos 8443;
  path = codes "/";
  address = codes "a.b:8443";
  is_ip = false;
}

abbrev url_result : Target
url_result = record {
  input = codes "http://a.b/x?q=1";
  scheme = codes "http";
  host = codes "a.b";
  port = pos 80;
  path = codes "/x?q=1";
  address = codes "a.b:80";
  is_ip = false;
}

parse_bare : parse_target syntax (codes " a.b:8443 ") empty_options ≡ ok bare_result
unfolding all_digits split_at_colon split_suffix split_bracketed split_forms split_host_port_loose
    parse_bare_target finish_target parse_target parse_port text_runs
parse_bare = refl

parse_url : parse_target syntax (codes "http://a.b/x?q=1") empty_options ≡ ok url_result
unfolding url_port url_path url_target parse_url_target finish_target parse_target text_runs
parse_url = refl

port_too_large :
    parse_target syntax (codes "a.b:65536") empty_options
    ≡ err (codes "invalid port " ++ (34 ∷ (codes "65536" ++ (34 ∷ []))))
unfolding all_digits split_at_colon split_suffix split_bracketed split_forms split_host_port_loose
    parse_bare_target finish_target parse_target parse_port text_runs
port_too_large = refl

parse_target_sound_example : IsTarget syntax (codes " a.b:8443 ") empty_options bare_result
parse_target_sound_example =
    parse_target_sound syntax (codes " a.b:8443 ") empty_options bare_result parse_bare

parse_target-address_example :
    parse_target syntax (join_host_port (codes "a.b") (itoa 8443)) empty_options
    ≡ ok (record {
      input = join_host_port (codes "a.b") (itoa 8443);
      scheme = codes "https";
      host = codes "a.b";
      port = pos 8443;
      path = codes "/";
      address = join_host_port (codes "a.b") (itoa 8443);
      is_ip = syntax.is_ip (codes "a.b");
    })
unfolding text_runs
parse_target-address_example =
    parse_target-address syntax empty_options (codes "a.b") 8443 (λ e. cc)
      ((refl, refl, refl, refl), ((refl, refl, refl, refl), ((refl, refl, refl, refl), tt)))
      (omega arith) (omega arith) refl

split_host_port-join_example :
    split_host_port (join_host_port (codes "::1") (codes "443")) ≡ some (codes "::1", codes "443")
unfolding text_runs
split_host_port-join_example =
    split_host_port-join (codes "::1") (codes "443") (λ e. cc)
      ((refl, (refl, (refl, tt))), (refl, (refl, (refl, tt))))
      ((refl, (refl, (refl, tt))), (refl, (refl, (refl, tt))), (refl, (refl, (refl, tt))))

-- The brackets are trimmed after the test for an empty host.
empty_host :
    parse_target syntax (codes "]:443") empty_options
    ≡ ok (record {
      input = codes "]:443";
      scheme = codes "https";
      host = [];
      port = pos 443;
      path = codes "/";
      address = codes ":443";
      is_ip = false;
    })
unfolding all_digits split_at_colon split_suffix split_bracketed split_forms split_host_port_loose
    parse_bare_target finish_target parse_target parse_port text_runs
empty_host = refl
