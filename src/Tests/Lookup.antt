-- ===== src/Tests/Lookup.antt =====
-- internal/checker/dns.go: the search for CAA records on a network where only `example.com` has
-- one.
use ssl_certificate_verifier.Base.{
  ◌≤◌, ◌≡◌, refl, All, [], ◌∷◌, ◌++◌, ◌==◌, if◌then◌else◌, Text, codes, str_eq, length, none, some,
  inl, inr, ok, Returns,
}
use ssl_certificate_verifier.Strings.{text_runs, trim, trim_space}
use ssl_certificate_verifier.Types.{Bytes, CaaRecord, empty_options}
use ssl_certificate_verifier.Dns.Check.{Resolver, check_dns}
use ssl_certificate_verifier.Dns.Check.Frame.{IsLookedUp, check_dns-IsLookedUp}
use ssl_certificate_verifier.Tests.Verify.{target}
use ssl_certificate_verifier.Tests.Security.{report}
use ssl_certificate_verifier.Dns.Name.{
  encode_labels, encode_dns_name, skip_labels, skip_dns_name, parent_domain,
}
use ssl_certificate_verifier.Dns.Query.{build_caa_query}
use ssl_certificate_verifier.Dns.Response.{
  uint16_at, parse_caa_rdata, skip_questions, read_record, read_answers, parse_caa_response,
}
use ssl_certificate_verifier.Dns.Response.RoundTrip.{respond}
use ssl_certificate_verifier.Dns.Servers.{dns_servers, servers_from, IsServer, dns_servers-IsServer}
use ssl_certificate_verifier.Dns.Lookup.{
  Datagrams, random_query_id, query_caa_server, ask_servers, lookup_caa, lookup_from,
  lookup_caa_hierarchy,
}
use ssl_certificate_verifier.Dns.Lookup.Nearest.{Searched, lookup_caa_hierarchy-Returns}

abbrev issue : CaaRecord
issue = record { flag = 0; tag = codes "issue"; value = codes "ca" }

abbrev resolv_conf : Text
resolv_conf = codes "search local" ++ (b'\n' ∷ codes "nameserver 10.0.0.1")

-- The state is the last query; a query of 29 bytes is the one for `example.com`.
abbrev answer : Bytes → Bytes
answer query = respond query 0x8180 60 (if length query == 29 then issue ∷ [] else [])

abbrev net : Datagrams Bytes (Unit {0})
net = record {
  is_ip = λ host. str_eq host (codes "10.0.0.1");
  read_file = λ name w. ((resolv_conf, none), w);
  random = λ w. (some (1, 2), w);
  now_nanos = λ w. 0;
  dial = λ network server w. (inr tt, w);
  set_deadline = λ conn w. w;
  write = λ conn query w. (none, query);
  read = λ conn size w. (inr (answer w), w);
  close = λ conn w. w;
}

servers_read : dns_servers net.is_ip (resolv_conf, none) ≡ codes "10.0.0.1:53" ∷ []
unfolding dns_servers servers_from text_runs
servers_read = refl

dns_servers-IsServer_example :
    (1 ≤ length (dns_servers net.is_ip (resolv_conf, none)))
    × (length (dns_servers net.is_ip (resolv_conf, none)) ≤ 3)
    × All (IsServer net.is_ip) (dns_servers net.is_ip (resolv_conf, none))
dns_servers-IsServer_example = dns_servers-IsServer net.is_ip (resolv_conf, none)

found_at_parent :
    (lookup_caa_hierarchy net (codes "www.example.com.") []).0
    ≡ ok (codes "example.com", issue ∷ [])
unfolding lookup_caa_hierarchy lookup_from lookup_caa ask_servers query_caa_server random_query_id
    dns_servers servers_from build_caa_query encode_dns_name encode_labels parent_domain
    parse_caa_response uint16_at skip_questions read_answers read_record parse_caa_rdata
    skip_dns_name skip_labels text_runs
found_at_parent = refl

lookup_caa_hierarchy-Returns_example :
    Returns
      (λ r.
        Searched net
          (trim (trim_space (codes "www.example.com.")) (codes "."))
          []
          r
          (lookup_caa_hierarchy net (codes "www.example.com.") []).1)
      (lookup_caa_hierarchy net (codes "www.example.com.") []).0
lookup_caa_hierarchy-Returns_example =
    lookup_caa_hierarchy-Returns net (codes "www.example.com.") []

abbrev resolver : Resolver Bytes
resolver = record {
  with_timeout = λ d w. w;
  cancel = λ w. w;
  lookup_addr = λ host w. (inl (codes "no such host"), w);
  lookup_cname = λ host w. (inr host, w);
  lookup_ip = λ network host w. (inl (codes "no such host"), w);
}

check_dns-IsLookedUp_example :
    Returns
      (IsLookedUp resolver net target empty_options [] report)
      (check_dns resolver net target empty_options report []).0
check_dns-IsLookedUp_example = check_dns-IsLookedUp resolver net target empty_options report []
