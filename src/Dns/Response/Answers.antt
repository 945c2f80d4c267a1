-- ===== src/Dns/Response/Answers.antt =====
-- The answer section of a response: CAA records in wire form are read back as those records.

use ssl_certificate_verifier.Base.{
  ℕ, suc, ◌+◌, ◌-◌, ◌*◌, ◌/◌, ◌%◌, ◌≤◌, ◌<◌, ◌≡◌, sym, ap, ◌∙◌, arith, List, [], ◌∷◌, ◌++◌,
  append_assoc, append-nil, Text, length, length-append, drop, take-append, drop-append,
  take-length, drop-shift, All, ok, byte_at, byte_at-append, slice, some, ltb, false,
}
use ssl_certificate_verifier.Types.{CaaRecord}
use ssl_certificate_verifier.Dns.Name.{skip_dns_name, skip_labels}
use ssl_certificate_verifier.Dns.Response.{uint16_at, parse_caa_rdata, read_record, read_answers}
use ssl_certificate_verifier.Dns.Response.Slices.{uint16_at-shift, slice-shift}

abbrev wire_rdata : CaaRecord → Text
wire_rdata r = r.flag ∷ length r.tag ∷ (r.tag ++ r.value)

-- A record that has a wire form: the tag's length fits a byte, and the data's length 16 bits.
pub record IsCaa (r : CaaRecord) : Type 0 where
  pub tag_lo : 1 ≤ length r.tag
  pub tag_hi : length r.tag ≤ 255
  pub fits : length (wire_rdata r) < 65536

abbrev pub wire_uint16 : ℕ → Text
wire_uint16 n = (n / 256 % 256) ∷ (n % 256) ∷ []

abbrev wire_uint32 : ℕ → Text
wire_uint32 n = wire_uint16 (n / 65536) ++ wire_uint16 n

-- An answer with the owner's name as a pointer to the question, and any time to live.
abbrev wire_answer : ℕ → CaaRecord → Text
wire_answer ttl r =
    0xc0
    ∷ 0x0c
    ∷ 1
    ∷ 1
    ∷ 0
    ∷ 1
    ∷ (wire_uint32 ttl ++ (wire_uint16 (length (wire_rdata r)) ++ wire_rdata r))

abbrev pub wire_answers : ℕ → List CaaRecord → Text
wire_answers ttl [] = []
wire_answers ttl (r ∷ rs) = wire_answer ttl r ++ wire_answers ttl rs

slice-tag : (r : CaaRecord) → slice (wire_rdata r) 2 (2 + length r.tag) ≡ ok r.tag
unfolding slice
slice-tag r =
    let n : 2 + length r.tag - 2 ≡ length r.tag = omega arith in
    ground (arith, n, length-append r.tag r.value, take-append r.tag r.value)

slice-value :
    (r : CaaRecord) → slice (wire_rdata r) (2 + length r.tag) (length (wire_rdata r)) ≡ ok r.value
unfolding slice
slice-value r =
    let two : List ℕ = r.flag ∷ length r.tag ∷ [] in
    let behind : drop (2 + length r.tag) (two ++ (r.tag ++ r.value)) ≡ r.value =
      drop-shift two (r.tag ++ r.value) (length r.tag) ∙ drop-append r.tag r.value in
    let n : length (wire_rdata r) - (2 + length r.tag) ≡ length r.value =
      omega (arith, length-append r.tag r.value) in
    ground (arith, length-append r.tag r.value, behind, n, take-length r.value)

parse_caa_rdata-wire_rdata :
    (r : CaaRecord) → IsCaa r → parse_caa_rdata (wire_rdata r) ≡ ok (some r)
unfolding parse_caa_rdata byte_at
parse_caa_rdata-wire_rdata r h =
    ground (arith, slice-tag r, slice-value r, length-append r.tag r.value)

skip_dns_name-pointer :
    (pre s : Text) → skip_dns_name (pre ++ (0xc0 ∷ 0x0c ∷ s)) (length pre) ≡ ok (length pre + 2)
unfolding skip_dns_name skip_labels
skip_dns_name-pointer pre s =
    ground (arith, byte_at-append pre 0xc0 (0x0c ∷ s), length-append pre (0xc0 ∷ 0x0c ∷ s))

read_record-wire_rdata :
    (r : CaaRecord) (records : List CaaRecord)
    → IsCaa r
    → read_record 257 1 (wire_rdata r) records ≡ ok (records ++ r ∷ [])
unfolding read_record
read_record-wire_rdata r records h = rw (parse_caa_rdata-wire_rdata r h)

module _ (r : CaaRecord) (ttl : ℕ) (pre rest : Text) (h : IsCaa r) where
  abbrev answer_msg : Text
  answer_msg = pre ++ (wire_answer ttl r ++ rest)

  answer_type : uint16_at answer_msg (length pre + 2) ≡ ok 257
  unfolding uint16_at byte_at
  answer_type = rw (uint16_at-shift pre (wire_answer ttl r ++ rest) 2)

  answer_class : uint16_at answer_msg (length pre + 2 + 2) ≡ ok 1
  unfolding uint16_at byte_at
  answer_class =
      let at : length pre + 2 + 2 ≡ length pre + 4 = omega arith in
      rw (at, uint16_at-shift pre (wire_answer ttl r ++ rest) 4)

  answer_length : uint16_at answer_msg (length pre + 2 + 8) ≡ ok (length (wire_rdata r))
  unfolding uint16_at byte_at
  answer_length =
      let at : length pre + 2 + 8 ≡ length pre + 10 = omega arith in
      let n = length (wire_rdata r) in
      let whole : (n / 256 % 256) * 256 + n % 256 ≡ n = omega (arith, h.fits) in
      rw (at, uint16_at-shift pre (wire_answer ttl r ++ rest) 10) (ap ok whole)

  answer_rdata :
      slice answer_msg (length pre + 2 + 10) (length pre + 2 + 10 + length (wire_rdata r))
      ≡ ok (wire_rdata r)
  answer_rdata =
      let n = length (wire_rdata r) in
      let from : length pre + 2 + 10 ≡ length pre + 12 = omega arith in
      let to : length pre + 12 + n ≡ length pre + (12 + n) = omega arith in
      let size : (12 + n) - 12 ≡ n = omega arith in
      rw (from, to)
        (slice-shift pre (wire_answer ttl r ++ rest) 12 (12 + n) (omega arith)
            (omega (arith, length-append (wire_rdata r) rest))
          ∙ ap ok (rw size (take-append (wire_rdata r) rest)))

  -- One round of the loop over the answers.
  read_answers-wire_answer :
      (left : ℕ) (records : List CaaRecord)
      → read_answers (suc left) answer_msg (length pre) records
        ≡ read_answers left answer_msg (length pre + length (wire_answer ttl r)) (records ++ r ∷ [])
  unfolding read_answers
  read_answers-wire_answer left records =
      let n = length (wire_rdata r) in
      let size : length pre + 2 + 10 + n ≤ length answer_msg =
        omega (
          arith,
          length-append pre (wire_answer ttl r ++ rest),
          length-append (wire_rdata r) rest,
        ) in
      let long : ltb (length answer_msg) (length pre + 2 + 10) ≡ false = ground arith in
      let fits : ltb (length answer_msg) (length pre + 2 + 10 + n) ≡ false = ground arith in
      let next : length pre + 2 + 10 + n ≡ length pre + length (wire_answer ttl r) = omega arith in
      rw (
        skip_dns_name-pointer pre _,
        long,
        answer_type,
        answer_class,
        answer_length,
        fits,
        answer_rdata,
        read_record-wire_rdata r records h,
        next,
      )

pub read_answers-wire_answers :
    (rs : List CaaRecord) (ttl : ℕ) (pre rest : Text) (records : List CaaRecord)
    → All IsCaa rs
    → read_answers (length rs) (pre ++ (wire_answers ttl rs ++ rest)) (length pre) records
      ≡ ok (records ++ rs)
read_answers-wire_answers [] ttl pre rest records h =
    unfold read_answers in ap ok (sym (append-nil records))
read_answers-wire_answers (r ∷ rs) ttl pre rest records h =
    let tail = wire_answers ttl rs ++ rest in
    let here = wire_answer ttl r in
    let moved : (pre ++ here) ++ tail ≡ pre ++ (here ++ tail) = append_assoc pre here tail in
    let len : length (pre ++ here) ≡ length pre + length here =
      omega (arith, length-append pre here) in
    rw (append_assoc here (wire_answers ttl rs) rest) (
      read_answers-wire_answer r ttl pre tail h.0 (length rs) records
      ∙ rw (moved, len) at
          (read_answers-wire_answers rs ttl (pre ++ here) rest (records ++ r ∷ []) h.1)
      ∙ ap ok (append_assoc records (r ∷ []) rs))
