-- ===== src/Dns/Lookup/Nearest.antt =====
-- The search for CAA records ends, without a panic, at the host or at one of its parents.
use ssl_certificate_verifier.Base.{
  subst, sym, true, ℕ, zero, suc, ◌+◌, ◌≤◌, ◌<◌, ◌≡◌, ◌≢◌, ◌⊎◌, inl, inr, refl, arith, Bool-cases,
  false, List, [], ◌∷◌, if◌then◌else◌, Text, codes, length, length-drop, is_empty, drop, All,
  Option, none, some, Outcome, ok, err, panic, Safely, Safely-if, Safely->>=, Returns, Returns-mono,
  leb, ltb, ◌||◌,
}
use ssl_certificate_verifier.Strings.{trim, trim_space, index_byte, split}
use ssl_certificate_verifier.Types.{Bytes, CaaRecord}
use ssl_certificate_verifier.Dns.Name.{parent_domain, encode_labels, encode_dns_name}
use ssl_certificate_verifier.Dns.Query.{build_caa_query}
use ssl_certificate_verifier.Dns.Response.Safety.{HasTag, parse_caa_response-Safely}
use ssl_certificate_verifier.Dns.Lookup.{
  Datagrams, random_query_id, answered, sent, connected, with_query, query_caa_server, unanswered,
  next_server, ask_servers, lookup_caa, found_or, lookup_from, lookup_caa_hierarchy,
}

is_empty-length : (s : Text) → is_empty s ≡ false → 1 ≤ length s
is_empty-length [] h = cc
is_empty-length (c ∷ s) h = omega arith

parent_domain-lt : (s : Text) → is_empty s ≡ false → length (parent_domain s) < length s
unfolding parent_domain
parent_domain-lt s h = at (index_byte s b'.')
  where
    filled : 1 ≤ length s
    filled = is_empty-length s h

    at :
        (o : Option ℕ)
        → length (elim o [
          | none ↦ []
          | some idx ↦ if leb (length s) (idx + 1) then [] else drop (idx + 1) s
        ])
          < length s
    at none = omega (arith, filled)
    at (some idx) = ground (arith, filled, length-drop (idx + 1) s)

encode_labels-Safely :
    (parts : List Text) (out : Text) → Safely (λ _. Unit) (encode_labels parts out)
unfolding encode_labels
encode_labels-Safely [] out = tt
encode_labels-Safely (part ∷ parts) out =
    Safely-if (λ _. Unit) (is_empty part || ltb 63 (length part)) _ _ (λ _. tt)
      (λ _. encode_labels-Safely parts _)

build_caa_query-Safely : (id : ℕ) (host : Text) → Safely (λ _. Unit) (build_caa_query id host)
unfolding build_caa_query encode_dns_name
build_caa_query-Safely id host =
    Safely->>= (λ _. Unit) (λ _. Unit) (encode_dns_name host) _
      (Safely-if (λ _. Unit) (is_empty (trim (trim_space host) (codes "."))) _ _ (λ _. tt)
        (λ _. encode_labels-Safely (split (trim (trim_space host) (codes ".")) b'.') []))
      λ name _. tt

-- The search from a name in a state: at the end of the names there is nothing; the first name whose
-- lookup gives records is the result, with these records; a name without records, or whose lookup
-- fails, is passed over for the one above it.
pub data Searched {World Conn : Type 0} (net : Datagrams World Conn)
    : Text → World → Text × List CaaRecord → World → Type 0 where
  at_top : (w : World) → Searched net [] w ([], []) w
  at_name :
      (name : Text) (w w1 : World) (records : List CaaRecord)
      → name ≢ []
      → lookup_caa net name w ≡ (ok records, w1)
      → records ≢ []
      → All HasTag records
      → Searched net name w (name, records) w1
  without_records :
      (name : Text) (w w1 w2 : World) (r : Text × List CaaRecord)
      → name ≢ []
      → lookup_caa net name w ≡ (ok [], w1)
      → Searched net (parent_domain name) w1 r w2
      → Searched net name w r w2
  lookup_failed :
      (name e : Text) (w w1 w2 : World) (r : Text × List CaaRecord)
      → name ≢ []
      → lookup_caa net name w ≡ (err e, w1)
      → Searched net (parent_domain name) w1 r w2
      → Searched net name w r w2

module _ {World Conn : Type 0} (net : Datagrams World Conn) where
  answered-Safely :
      (id : ℕ) (r : (Text ⊎ Bytes) × World) → Safely (All HasTag) (answered net id r).0
  answered-Safely id (inl e, w) = tt
  answered-Safely id (inr msg, w) = parse_caa_response-Safely msg id

  sent-Safely :
      (id : ℕ) (conn : Conn) (r : Option Text × World) → Safely (All HasTag) (sent net id conn r).0
  sent-Safely id conn (some e, w) = tt
  sent-Safely id conn (none, w) = answered-Safely id (net.read conn 4096 w)

  connected-Safely :
      (id : ℕ) (query : Bytes) (r : (Text ⊎ Conn) × World)
      → Safely (All HasTag) (connected net id query r).0
  connected-Safely id query (inl e, w) = tt
  connected-Safely id query (inr conn, w) =
      sent-Safely id conn (net.write conn query (net.set_deadline conn w))

  with_query-Safely :
      (id : ℕ) (server : Text) (q : Outcome Bytes) (w : World)
      → Safely (λ _. Unit) q
      → Safely (All HasTag) (with_query net id server q w).0
  with_query-Safely id server (ok query) w h =
      connected-Safely id query (net.dial (codes "udp") server w)
  with_query-Safely id server (err e) w h = tt
  with_query-Safely id server panic w h = h

  query_caa_server-Safely :
      (server host : Text) (w : World) → Safely (All HasTag) (query_caa_server net server host w).0
  unfolding query_caa_server
  query_caa_server-Safely server host w =
      with_query-Safely (random_query_id net w).0 server _ (random_query_id net w).1
        (build_caa_query-Safely (random_query_id net w).0 host)

  next_server-Safely :
      (next : Option Text → World → Outcome (List CaaRecord) × World)
      (r : Outcome (List CaaRecord) × World)
      → ((last : Option Text) (w : World) → Safely (All HasTag) (next last w).0)
      → Safely (All HasTag) r.0
      → Safely (All HasTag) (next_server net next r).0
  next_server-Safely next (ok records, w) rest h = h
  next_server-Safely next (err e, w) rest h = rest (some e) w
  next_server-Safely next (panic, w) rest h = h

  unanswered-Safely : (last : Option Text) → Safely (All HasTag) (unanswered net last)
  unanswered-Safely none = tt
  unanswered-Safely (some e) = tt

  ask_servers-Safely :
      (servers : List Text) (host : Text) (last : Option Text) (w : World)
      → Safely (All HasTag) (ask_servers net servers host last w).0
  unfolding ask_servers
  ask_servers-Safely [] host last w = unanswered-Safely last
  ask_servers-Safely (server ∷ servers) host last w =
      next_server-Safely (λ last w. ask_servers net servers host last w)
        (query_caa_server net server host w) (ask_servers-Safely servers host)
        (query_caa_server-Safely server host w)

  lookup_caa-Safely : (host : Text) (w : World) → Safely (All HasTag) (lookup_caa net host w).0
  unfolding lookup_caa
  lookup_caa-Safely host w = ask_servers-Safely _ host none _

  -- The search has a result, and it is that of the relation.
  abbrev Ends : Text → World → Outcome (Text × List CaaRecord) × World → Type 0
  Ends name w o = Returns (λ r. Searched net name w r o.1) o.0

  further :
      (name : Text) (w w1 : World) (o : Outcome (Text × List CaaRecord) × World)
      → ((r : Text × List CaaRecord)
          → Searched net (parent_domain name) w1 r o.1
          → Searched net name w r o.1)
      → Ends (parent_domain name) w1 o
      → Ends name w o
  further name w w1 o step ends = Returns-mono _ _ o.0 step ends

  found_or-Ends :
      (name : Text) (w : World) (next : World → Outcome (Text × List CaaRecord) × World)
      (r : Outcome (List CaaRecord) × World)
      → name ≢ []
      → lookup_caa net name w ≡ r
      → ((w1 : World) → Ends (parent_domain name) w1 (next w1))
      → Safely (All HasTag) r.0
      → Ends name w (found_or net name next r)
  found_or-Ends name w next (ok [], w1) named e rest h =
      further name w w1 (next w1) (λ r. without_records name w w1 _ r named e) (rest w1)
  found_or-Ends name w next (ok (r ∷ rs), w1) named e rest h =
      at_name name w w1 (r ∷ rs) named e (λ e. cc) h
  found_or-Ends name w next (err message, w1) named e rest h =
      further name w w1 (next w1) (λ r. lookup_failed name message w w1 _ r named e) (rest w1)
  found_or-Ends name w next (panic, w1) named e rest h = absurd h

  nonempty : (s : Text) → is_empty s ≡ false → s ≢ []
  nonempty [] h e = cc
  nonempty (c ∷ s) h e = cc

  empty-nil : (s : Text) → is_empty s ≡ true → s ≡ []
  empty-nil [] h = refl
  empty-nil (c ∷ s) h = cc

  lookup_from-Ends :
      (rounds : ℕ) (name : Text) (w : World)
      → length name < rounds
      → Ends name w (lookup_from net rounds name w)
  unfolding lookup_from
  lookup_from-Ends zero name w h = absurd (omega arith)
  lookup_from-Ends (suc rounds) name w h = elim (Bool-cases (is_empty name)) [
    | inl top ↦
        rw top (subst (λ s. Searched net s w ([], []) w) (sym (empty-nil name top)) (at_top w))
    | inr named ↦ rw named (
        found_or-Ends name w _ (lookup_caa net name w) (nonempty name named) refl
          (λ w.
            lookup_from-Ends rounds (parent_domain name) w
              (omega (arith, parent_domain-lt name named)))
          (lookup_caa-Safely name w))
  ]

-- Whatever the network and the file of servers give, the search for the CAA records of a host
-- returns: it ends, and reads nothing outside a response. From the host, without white space and
-- dots around it, it goes up name by name, past those whose lookup fails or has no records, and its
-- result is the first name whose lookup gives records, with these, each with a tag, or nothing.
pub lookup_caa_hierarchy-Returns :
    {World Conn : Type 0} (net : Datagrams World Conn) (host : Text) (w : World)
    → Returns
        (λ r.
          Searched net (trim (trim_space host) (codes ".")) w r (lookup_caa_hierarchy net host w).1)
        (lookup_caa_hierarchy net host w).0
unfolding lookup_caa_hierarchy
lookup_caa_hierarchy-Returns net host w =
    let trimmed = trim (trim_space host) (codes ".") in
    lookup_from-Ends net (length trimmed + 1) trimmed w (omega arith)
