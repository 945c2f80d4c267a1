-- ===== src/Dns/Response/RoundTrip.antt =====
-- A response that echoes the question of a query and answers it with CAA records is read back as
-- those records.
use ssl_certificate_verifier.Base.{
  ℕ, ◌+◌, ◌*◌, ◌/◌, ◌%◌, ◌<◌, ◌≡◌, ◌⊎◌, sym, ap, arith, List, [], ◌∷◌, ◌++◌, append_assoc,
  append-nil, Text, length, length-append, take, drop, All, ok, byte_at, bit_and, >>=-eq-ok,
}
use ssl_certificate_verifier.Types.{CaaRecord}
use ssl_certificate_verifier.Strings.{split}
use ssl_certificate_verifier.Dns.Name.{skip_dns_name, encode_dns_name}
use ssl_certificate_verifier.Dns.Name.Encode.{
  IsLabel, bare_name, wire_name, skip_dns_name-wire_name, encode_dns_name_sound,
}
use ssl_certificate_verifier.Dns.Query.{build_caa_query}
use ssl_certificate_verifier.Dns.Response.{
  uint16_at, skip_questions, read_answers, parse_caa_response,
}
use ssl_certificate_verifier.Dns.Response.Answers.{
  IsCaa, wire_uint16, wire_answers, read_answers-wire_answers,
}

-- The type and the class of the question.
abbrev question_end : Text
question_end = 1 ∷ 1 ∷ 0 ∷ 1 ∷ []

-- The header of a response with one question and `n` answers.
abbrev wire_header : Text → ℕ → ℕ → Text
wire_header id flags n =
    id ++ (wire_uint16 flags ++ (0 ∷ 1 ∷ (wire_uint16 n ++ (0 ∷ 0 ∷ 0 ∷ 0 ∷ []))))

-- What a server sends to a query: its identifier, flags, its question, and the answers.
abbrev pub respond : Text → ℕ → ℕ → List CaaRecord → Text
respond query flags ttl rs =
    wire_header (take 2 query) flags (length rs) ++ (drop 12 query ++ wire_answers ttl rs)

-- The status in the flags is "no error" or "no such name".
abbrev pub IsAnswered : ℕ → Type 0
IsAnswered flags = (bit_and flags 0x000f ≡ 0) ⊎ (bit_and flags 0x000f ≡ 3)

module _ (id flags ttl : ℕ) (ps : List Text) (rs : List CaaRecord) (labels : All IsLabel ps) where
  abbrev header : Text
  header = wire_header (wire_uint16 id) flags (length rs)

  abbrev question : Text
  question = wire_name ps ++ question_end

  abbrev msg : Text
  msg = header ++ (question ++ wire_answers ttl rs)

  skip_questions-msg : skip_questions 1 msg 12 ≡ ok (12 + length question)
  unfolding skip_questions
  skip_questions-msg =
      let ans = wire_answers ttl rs in
      let shape : msg ≡ header ++ (wire_name ps ++ (question_end ++ ans)) =
        ap (◌++◌ header) (append_assoc (wire_name ps) question_end ans) in
      let name_end : skip_dns_name msg 12 ≡ ok (12 + length (wire_name ps)) =
        rw shape (skip_dns_name-wire_name ps header (question_end ++ ans) labels) in
      let size = length-append (wire_name ps) question_end in
      let all = length-append question ans in rw name_end (ground (arith, size, all))

  read_answers-msg : All IsCaa rs → read_answers (length rs) msg (12 + length question) [] ≡ ok rs
  read_answers-msg h =
      let ans = wire_answers ttl rs in
      let shape : msg ≡ (header ++ question) ++ (ans ++ []) =
        rw append-nil (sym (append_assoc header question ans)) in
      let len : 12 + length question ≡ length (header ++ question) =
        omega (arith, length-append header question) in
      rw (len, shape) (read_answers-wire_answers rs ttl (header ++ question) [] [] h)

  parse_caa_response-msg :
      id < 65536
      → flags < 65536
      → length rs < 65536
      → IsAnswered flags
      → All IsCaa rs
      → parse_caa_response msg id ≡ ok rs
  unfolding parse_caa_response uint16_at byte_at
  parse_caa_response-msg hid hflags hn answered h =
      let is_id : (id / 256 % 256) * 256 + id % 256 ≡ id = omega arith in
      let is_flags : (flags / 256 % 256) * 256 + flags % 256 ≡ flags = omega arith in
      let n = length rs in
      let is_n : (n / 256 % 256) * 256 + n % 256 ≡ n = omega arith in
      ground (arith, is_id, is_flags, is_n, skip_questions-msg, read_answers-msg h)

-- A query: its identifier, recursion desired, one question, and nothing else.
abbrev wire_query : ℕ → Text → Text
wire_query id name =
    wire_uint16 id ++ (1 ∷ 0 ∷ 0 ∷ 1 ∷ 0 ∷ 0 ∷ 0 ∷ 0 ∷ 0 ∷ 0 ∷ (name ++ question_end))

-- A built query is the wire form of the host's labels behind a header.
build_caa_query_sound :
    (id : ℕ) (host query : Text)
    → build_caa_query id host ≡ ok query
    → All IsLabel (split (bare_name host) b'.')
      × (query ≡ wire_query id (wire_name (split (bare_name host) b'.')))
unfolding build_caa_query
build_caa_query_sound id host query built =
    let (name, encoded, shape) = >>=-eq-ok (encode_dns_name host) _ built in
    let (labels, is_name, _) = encode_dns_name_sound host name encoded in
    (labels, cc (shape, is_name, append_assoc name (1 ∷ 1 ∷ []) (0 ∷ 1 ∷ [])))

-- The records that a server puts into its answer to the query for a host are what
-- `parseCAAResponse` returns: in the same order, whatever the time to live, for every list of fewer
-- than 65536 records that have a wire form, if the server reports no error or no such name.
pub parse_caa_response-respond :
    (id flags ttl : ℕ) (host query : Text) (rs : List CaaRecord)
    → build_caa_query id host ≡ ok query
    → id < 65536
    → flags < 65536
    → length rs < 65536
    → IsAnswered flags
    → All IsCaa rs
    → parse_caa_response (respond query flags ttl rs) id ≡ ok rs
parse_caa_response-respond id flags ttl host query rs built hid hflags hn answered h =
    let (labels, shape) = build_caa_query_sound id host query built in
    rw shape (parse_caa_response-msg id flags ttl _ rs labels hid hflags hn answered h)
