-- ===== src/Tests/Dns.antt =====
-- internal/checker/dns.go on concrete names and messages.
use ssl_certificate_verifier.Base.{
  ◌≡◌, refl, arith, inr, List, [], ◌∷◌, ◌++◌, Text, codes, All, ok, err, Safely,
}
use ssl_certificate_verifier.Strings.{text_runs}
use ssl_certificate_verifier.Types.{CaaRecord}
use ssl_certificate_verifier.Dns.Name.{
  encode_labels, encode_dns_name, skip_labels, skip_dns_name, parent_domain,
}
use ssl_certificate_verifier.Dns.Name.Encode.{IsLabel}
use ssl_certificate_verifier.Dns.Query.{build_caa_query}
use ssl_certificate_verifier.Dns.Response.{
  uint16_at, parse_caa_rdata, skip_questions, read_record, read_answers, parse_caa_response,
}
use ssl_certificate_verifier.Dns.Response.Safety.{HasTag, parse_caa_response-Safely}
use ssl_certificate_verifier.Dns.Response.Answers.{IsCaa}
use ssl_certificate_verifier.Dns.Response.RoundTrip.{respond, parse_caa_response-respond}

abbrev host : Text
host = codes " ab.c. "

abbrev labels : List Text
labels = (b'a' ∷ b'b' ∷ []) ∷ (b'c' ∷ []) ∷ []

abbrev name : Text
name = 2 ∷ b'a' ∷ b'b' ∷ 1 ∷ b'c' ∷ 0 ∷ []

abbrev query : Text
query = 18 ∷ 52 ∷ 1 ∷ 0 ∷ 0 ∷ 1 ∷ 0 ∷ 0 ∷ 0 ∷ 0 ∷ 0 ∷ 0 ∷ (name ++ (1 ∷ 1 ∷ 0 ∷ 1 ∷ []))

encode_host : encode_dns_name host ≡ ok name
unfolding encode_dns_name encode_labels text_runs
encode_host = refl

encode_empty_label :
    encode_dns_name (codes "a..b") ≡ err (codes "invalid DNS label " ++ (34 ∷ 34 ∷ []))
unfolding encode_dns_name encode_labels text_runs
encode_empty_label = refl

build_query : build_caa_query 4660 host ≡ ok query
unfolding build_caa_query encode_dns_name encode_labels text_runs
build_query = refl

parent_of_www : parent_domain (codes "www.example.com") ≡ codes "example.com"
unfolding parent_domain text_runs
parent_of_www = refl

-- A pointer to the message's own start is not followed.
skip_pointer : skip_dns_name (0xc0 ∷ 0 ∷ []) 0 ≡ ok 2
unfolding skip_dns_name skip_labels text_runs
skip_pointer = refl

are_labels : All IsLabel labels
are_labels = ((omega arith, omega arith), ((omega arith, omega arith), tt))

abbrev issue : CaaRecord
issue = record { flag = 0; tag = codes "issue"; value = codes "ca.example" }

abbrev wild : CaaRecord
wild = record { flag = 128; tag = codes "issuewild"; value = codes ";" }

parse_respond :
    parse_caa_response (respond query 0x8183 300 (issue ∷ wild ∷ [])) 4660 ≡ ok (issue ∷ wild ∷ [])
unfolding parse_caa_response uint16_at skip_questions read_answers read_record parse_caa_rdata
    skip_dns_name skip_labels text_runs
parse_respond = refl

parse_other_id :
    parse_caa_response (respond query 0x8180 300 []) 7 ≡ err (codes "DNS response ID mismatch")
unfolding parse_caa_response uint16_at text_runs
parse_other_id = refl

issue-IsCaa : IsCaa issue
unfolding text_runs
issue-IsCaa = record { tag_lo = omega arith; tag_hi = omega arith; fits = omega arith }

wild-IsCaa : IsCaa wild
unfolding text_runs
wild-IsCaa = record { tag_lo = omega arith; tag_hi = omega arith; fits = omega arith }

parse_caa_response-respond_example :
    parse_caa_response (respond query 0x8183 300 (issue ∷ wild ∷ [])) 4660 ≡ ok (issue ∷ wild ∷ [])
parse_caa_response-respond_example =
    parse_caa_response-respond 4660 0x8183 300 host query (issue ∷ wild ∷ []) build_query
      (omega arith) (omega arith) (omega arith) (inr refl) (issue-IsCaa, (wild-IsCaa, tt))

parse_caa_response-Safely_example : Safely (All HasTag) (parse_caa_response query 4660)
parse_caa_response-Safely_example = parse_caa_response-Safely query 4660
