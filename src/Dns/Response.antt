-- ===== src/Dns/Response.antt =====
-- internal/checker/dns.go: `parseCAAResponse` and `parseCAARData`.
pub mod Safety
pub mod Slices
pub mod Answers
pub mod RoundTrip
use ssl_certificate_verifier.Base.{
  ℕ, zero, suc, ◌+◌, ◌*◌, Bool, true, false, not, ◌&&◌, ◌||◌, List, [], ◌∷◌, ◌++◌, bit_and, ltb,
  ◌==◌, if◌then◌else◌, Text, codes, length, Option, none, some, Outcome, ok, err, panic, ◌>>=◌,
  byte_at, slice,
}
use ssl_certificate_verifier.Strings.{itoa}
use ssl_certificate_verifier.Types.{CaaRecord}
use ssl_certificate_verifier.Dns.Name.{skip_dns_name}

-- `binary.BigEndian.Uint16(msg[i:i+2])`.
unfoldable pub uint16_at : Text → ℕ → Outcome ℕ
uint16_at msg i = do hi ← byte_at msg i; lo ← byte_at msg (i + 1); ok (hi * 256 + lo)

-- The record, and `none` for the result `false`.
unfoldable pub parse_caa_rdata : Text → Outcome (Option CaaRecord)
parse_caa_rdata rdata = if ltb (length rdata) 2 then ok none else do
  tag_len ← byte_at rdata 1
  if tag_len == 0 || ltb (length rdata) (2 + tag_len) then ok none else do
    flag ← byte_at rdata 0
    tag ← slice rdata 2 (2 + tag_len)
    value ← slice rdata (2 + tag_len) (length rdata)
    ok (some (record { flag = flag; tag = tag; value = value }))

-- The loop over the questions; the first argument is the rounds left.
unfoldable pub skip_questions : ℕ → Text → ℕ → Outcome ℕ
skip_questions zero msg offset = ok offset
skip_questions (suc left) msg offset = do
  name_end ← skip_dns_name msg offset
  let rest = skip_questions left msg (name_end + 4)
  if ltb (length msg) (name_end + 4) then err (codes "short DNS question") else rest

-- What a round does with the record that it has found.
unfoldable pub read_record : ℕ → ℕ → Text → List CaaRecord → Outcome (List CaaRecord)
read_record rr_type rr_class rdata records =
    if rr_type == 257 && rr_class == 1
    then (do
      parsed ← parse_caa_rdata rdata
      elim parsed [ none ↦ ok records | some r ↦ ok (records ++ r ∷ []) ])
    else ok records

-- The loop over the answers.
unfoldable pub read_answers : ℕ → Text → ℕ → List CaaRecord → Outcome (List CaaRecord)
read_answers zero msg offset records = ok records
read_answers (suc left) msg offset records = do
  name_end ← skip_dns_name msg offset
  if ltb (length msg) (name_end + 10) then err (codes "short DNS answer") else do
    rr_type ← uint16_at msg name_end
    rr_class ← uint16_at msg (name_end + 2)
    rd_length ← uint16_at msg (name_end + 8)
    let start = name_end + 10
    if ltb (length msg) (start + rd_length) then err (codes "short DNS rdata") else do
      rdata ← slice msg start (start + rd_length)
      found ← read_record rr_type rr_class rdata records
      read_answers left msg (start + rd_length) found

unfoldable pub parse_caa_response : Text → ℕ → Outcome (List CaaRecord)
parse_caa_response msg expected_id =
    if ltb (length msg) 12 then err (codes "short DNS response") else do
      id ← uint16_at msg 0
      if not (id == expected_id) then err (codes "DNS response ID mismatch") else do
        flags ← uint16_at msg 2
        let rcode = bit_and flags 0x000f
        if not (rcode == 0) && not (rcode == 3)
            then err (codes "DNS response code " ++ itoa rcode)
            else do
              qd_count ← uint16_at msg 4
              an_count ← uint16_at msg 6
              offset ← skip_questions qd_count msg 12
              read_answers an_count msg offset []
