-- ===== src/Dns/Query.antt =====
-- internal/checker/dns.go: `buildCAAQuery`.
use ssl_certificate_verifier.Base.{ℕ, ◌/◌, ◌%◌, [], ◌∷◌, ◌++◌, Text, Outcome, ok, ◌>>=◌}
use ssl_certificate_verifier.Dns.Name.{encode_dns_name}

-- `binary.BigEndian.AppendUint16`.
abbrev append_uint16 : Text → ℕ → Text
append_uint16 msg v = msg ++ ((v / 256 % 256) ∷ (v % 256) ∷ [])

unfoldable pub build_caa_query : ℕ → Text → Outcome Text
build_caa_query id host = do
  name ← encode_dns_name host
  let with_id = append_uint16 [] id
  let with_flags = append_uint16 with_id 0x0100
  let with_qd = append_uint16 with_flags 1
  let with_an = append_uint16 with_qd 0
  let with_ns = append_uint16 with_an 0
  let with_ar = append_uint16 with_ns 0
  let with_name = with_ar ++ name
  let with_type = append_uint16 with_name 257
  ok (append_uint16 with_type 1)
