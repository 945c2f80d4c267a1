-- ===== src/Dns/Response/Safety.antt =====
-- `parseCAAResponse` reads nothing outside the message, whatever bytes the message holds.
use ssl_certificate_verifier.Base.{
  ℕ, zero, suc, ◌+◌, ◌-◌, ◌≤◌, ◌<◌, ◌≡◌, List, [], ◌∷◌, arith, Text, length, ltb, drop, length-take,
  length-drop, ◌||◌, ◌==◌, All, All-append, ◌++◌, ◌&&◌, not, bit_and, ok, byte_at, byte_at-lt,
  slice, Safely, Safely->>=, Safely-if, Option, none, some,
}
use ssl_certificate_verifier.Types.{CaaRecord}
use ssl_certificate_verifier.Dns.Name.{skip_dns_name}
use ssl_certificate_verifier.Dns.Name.Bounds.{skip_dns_name-Safely}
use ssl_certificate_verifier.Dns.Response.{
  uint16_at, parse_caa_rdata, skip_questions, read_record, read_answers, parse_caa_response,
}

byte_at-Safely : (msg : Text) (i : ℕ) → i < length msg → Safely (λ _. Unit) (byte_at msg i)
byte_at-Safely msg i h = let (b, read) = byte_at-lt msg i h in rw read tt

uint16_at-Safely : (msg : Text) (i : ℕ) → i + 2 ≤ length msg → Safely (λ _. Unit) (uint16_at msg i)
unfolding uint16_at
uint16_at-Safely msg i h =
    let (hi, read_hi) = byte_at-lt msg i (omega arith) in
    let (lo, read_lo) = byte_at-lt msg (i + 1) (omega arith) in rw (read_hi, read_lo) tt

slice-Safely :
    (msg : Text) (lo hi : ℕ)
    → lo ≤ hi
    → hi ≤ length msg
    → Safely (λ part. length part ≡ hi - lo) (slice msg lo hi)
unfolding slice
slice-Safely msg lo hi h k = ground (arith, length-take (hi - lo) (drop lo msg), length-drop lo msg)

-- The tag of a record is not empty.
abbrev pub HasTag : CaaRecord → Type 0
HasTag r = 1 ≤ length r.tag

abbrev IfFound : Option CaaRecord → Type 0
IfFound none = Unit
IfFound (some r) = HasTag r

parse_caa_rdata-Safely : (rdata : Text) → Safely IfFound (parse_caa_rdata rdata)
unfolding parse_caa_rdata
parse_caa_rdata-Safely rdata =
    Safely-if _ (ltb (length rdata) 2) _ _ (λ short. tt)
      λ long.
        Safely->>= (λ _. Unit) _ (byte_at rdata 1) _ (byte_at-Safely rdata 1 (ground arith))
          λ tag_len _.
            Safely-if _ (tag_len == 0 || ltb (length rdata) (2 + tag_len)) _ _ (λ bad. tt)
              λ fits.
                Safely->>= (λ _. Unit) _ (byte_at rdata 0) _ (byte_at-Safely rdata 0 (ground arith))
                  λ flag _.
                    Safely->>= _ _ (slice rdata 2 (2 + tag_len)) _
                      (slice-Safely rdata 2 (2 + tag_len) (omega arith) (ground arith))
                      λ tag len.
                        Safely->>= _ _ (slice rdata (2 + tag_len) (length rdata)) _
                          (slice-Safely rdata (2 + tag_len) (length rdata) (ground arith)
                            (omega arith))
                          λ value _. ground arith

skip_questions-Safely :
    (left : ℕ) (msg : Text) (offset : ℕ) → Safely (λ _. Unit) (skip_questions left msg offset)
unfolding skip_questions
skip_questions-Safely zero msg offset = tt
skip_questions-Safely (suc left) msg offset =
    Safely->>= _ _ (skip_dns_name msg offset) _ (skip_dns_name-Safely msg offset)
      λ name_end h. ground (arith, skip_questions-Safely left msg (name_end + 4))

read_record-Safely :
    (rr_type rr_class : ℕ) (rdata : Text) (records : List CaaRecord)
    → All HasTag records
    → Safely (All HasTag) (read_record rr_type rr_class rdata records)
unfolding read_record
read_record-Safely rr_type rr_class rdata records h =
    Safely-if _ (rr_type == 257 && rr_class == 1) _ _
      (λ is_caa.
        Safely->>= _ _ (parse_caa_rdata rdata) _ (parse_caa_rdata-Safely rdata) (found records h))
      (λ other. h)
  where
    found :
        (records : List CaaRecord)
        → All HasTag records
        → (parsed : Option CaaRecord) → IfFound parsed
        → Safely (All HasTag) (elim parsed [ none ↦ ok records | some r ↦ ok (records ++ r ∷ []) ])
    found records h none t = h
    found records h (some r) t = All-append HasTag records (r ∷ []) h (t, tt)

read_answers-Safely :
    (left : ℕ) (msg : Text) (offset : ℕ) (records : List CaaRecord)
    → All HasTag records
    → Safely (All HasTag) (read_answers left msg offset records)
unfolding read_answers
read_answers-Safely zero msg offset records h = h
read_answers-Safely (suc left) msg offset records h =
    Safely->>= _ _ (skip_dns_name msg offset) _ (skip_dns_name-Safely msg offset) λ name_end r.
      Safely-if _ (ltb (length msg) (name_end + 10)) _ _ (λ short. tt)
        λ long.
          Safely->>= (λ _. Unit) _ (uint16_at msg name_end) _
            (uint16_at-Safely msg name_end (ground arith))
            λ rr_type _.
              Safely->>= (λ _. Unit) _ (uint16_at msg (name_end + 2)) _
                (uint16_at-Safely msg (name_end + 2) (ground arith))
                λ rr_class _.
                  Safely->>= (λ _. Unit) _ (uint16_at msg (name_end + 8)) _
                    (uint16_at-Safely msg (name_end + 8) (ground arith))
                    λ rd_length _.
                      let start = name_end + 10 in
                      Safely-if _ (ltb (length msg) (start + rd_length)) _ _ (λ short. tt)
                        λ fits.
                          Safely->>= _ _ (slice msg start (start + rd_length)) _
                            (slice-Safely msg start (start + rd_length) (omega arith)
                              (ground arith))
                            λ rdata _.
                              Safely->>= _ _ (read_record rr_type rr_class rdata records) _
                                (read_record-Safely rr_type rr_class rdata records h)
                                λ found safe.
                                  read_answers-Safely left msg (start + rd_length) found safe

-- For any bytes and any query identifier `parseCAAResponse` reads nothing outside the message, it
-- ends, and every record that it returns has a tag of one byte at least.
pub parse_caa_response-Safely :
    (msg : Text) (expected_id : ℕ) → Safely (All HasTag) (parse_caa_response msg expected_id)
unfolding parse_caa_response
parse_caa_response-Safely msg expected_id =
    Safely-if _ (ltb (length msg) 12) _ _ (λ short. tt)
      λ long.
        Safely->>= (λ _. Unit) _ (uint16_at msg 0) _ (uint16_at-Safely msg 0 (ground arith))
          λ id _.
            Safely-if _ (not (id == expected_id)) _ _ (λ other. tt)
              λ same.
                Safely->>= (λ _. Unit) _ (uint16_at msg 2) _ (uint16_at-Safely msg 2 (ground arith))
                  λ flags _.
                    Safely-if _ (not (bit_and flags 0x000f == 0) && not (bit_and flags 0x000f == 3))
                      _ _ (λ refused. tt)
                      λ answered.
                        Safely->>= (λ _. Unit) _ (uint16_at msg 4) _
                          (uint16_at-Safely msg 4 (ground arith))
                          λ qd_count _.
                            Safely->>= (λ _. Unit) _ (uint16_at msg 6) _
                              (uint16_at-Safely msg 6 (ground arith))
                              λ an_count _.
                                Safely->>= _ _ (skip_questions qd_count msg 12) _
                                  (skip_questions-Safely qd_count msg 12)
                                  λ offset _. read_answers-Safely an_count msg offset [] tt
