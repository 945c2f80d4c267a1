-- ===== src/Dns/Lookup.antt =====
-- internal/checker/dns.go: `queryCAAServer`, `lookupCAA` and `lookupCAAHierarchy`. The operations
-- of net, os and crypto/rand are the fields of a parameter, over a type of states of the world,
-- which each operation passes on. The context, with its deadline, belongs to that state.
pub mod Nearest
use ssl_certificate_verifier.Base.{
  ℕ, zero, suc, ◌+◌, ◌*◌, ◌%◌, Bool, true, false, List, [], ◌∷◌, ◌++◌, if◌then◌else◌, Text, codes,
  length, is_empty, Option, none, some, ◌⊎◌, inl, inr, Outcome, ok, err, panic, ◌>>=◌,
}
use ssl_certificate_verifier.Strings.{trim, trim_space}
use ssl_certificate_verifier.Types.{Bytes, CaaRecord}
use ssl_certificate_verifier.Dns.Name.{parent_domain}
use ssl_certificate_verifier.Dns.Query.{build_caa_query}
use ssl_certificate_verifier.Dns.Response.{parse_caa_response}
use ssl_certificate_verifier.Dns.Servers.{dns_servers}

-- `random` gives two bytes or nothing; `now_nanos` is `time.Now().UnixNano()` modulo 2 ^ 16; `read`
-- gives the bytes that were read into a buffer of the given size.
pub record Datagrams (World Conn : Type 0) : Type 0 where
  pub is_ip : Text → Bool
  pub read_file : Text → World → (Text × Option Text) × World
  pub random : World → Option (ℕ × ℕ) × World
  pub now_nanos : World → ℕ
  pub dial : Text → Text → World → (Text ⊎ Conn) × World
  pub set_deadline : Conn → World → World
  pub write : Conn → Bytes → World → Option Text × World
  pub read : Conn → ℕ → World → (Text ⊎ Bytes) × World
  pub close : Conn → World → World

module _ {World Conn : Type 0} (net : Datagrams World Conn) where
  abbrev query_id_of : Option (ℕ × ℕ) × World → ℕ × World
  query_id_of (some (hi, lo), w) = (hi * 256 + lo, w)
  query_id_of (none, w) = (net.now_nanos w % 65536, w)

  unfoldable pub random_query_id : World → ℕ × World
  random_query_id w = query_id_of (net.random w)

  -- The parts of a query from its end: the answer, the sending, the connection, the query.
  abbrev answered : ℕ → (Text ⊎ Bytes) × World → Outcome (List CaaRecord) × World
  answered id (inl e, w) = (err e, w)
  answered id (inr msg, w) = (parse_caa_response msg id, w)

  abbrev sent : ℕ → Conn → Option Text × World → Outcome (List CaaRecord) × World
  sent id conn (some e, w) = (err e, w)
  sent id conn (none, w) = answered id (net.read conn 4096 w)

  -- The deferred `Close` runs on each path behind the dial.
  abbrev closed : Conn → Outcome (List CaaRecord) × World → Outcome (List CaaRecord) × World
  closed conn (r, w) = (r, net.close conn w)

  abbrev connected : ℕ → Bytes → (Text ⊎ Conn) × World → Outcome (List CaaRecord) × World
  connected id query (inl e, w) = (err e, w)
  connected id query (inr conn, w) =
      closed conn (sent id conn (net.write conn query (net.set_deadline conn w)))

  abbrev with_query : ℕ → Text → Outcome Bytes → World → Outcome (List CaaRecord) × World
  with_query id server (ok query) w = connected id query (net.dial (codes "udp") server w)
  with_query id server (err e) w = (err e, w)
  with_query id server panic w = (panic, w)

  unfoldable pub query_caa_server : Text → Text → World → Outcome (List CaaRecord) × World
  query_caa_server server host w =
      let (id, w') = random_query_id w in with_query id server (build_caa_query id host) w'

  -- The loop over the servers ends at the first answer; `last` is the last error so far.
  abbrev unanswered : Option Text → Outcome (List CaaRecord)
  unanswered none = err (codes "no DNS servers configured")
  unanswered (some e) = err e

  abbrev next_server :
      (Option Text → World → Outcome (List CaaRecord) × World)
      → Outcome (List CaaRecord) × World
      → Outcome (List CaaRecord) × World
  next_server next (ok records, w) = (ok records, w)
  next_server next (err e, w) = next (some e) w
  next_server next (panic, w) = (panic, w)

  unfoldable pub ask_servers :
      List Text → Text → Option Text → World → Outcome (List CaaRecord) × World
  ask_servers [] host last w = (unanswered last, w)
  ask_servers (server ∷ servers) host last w =
      next_server (λ last w. ask_servers servers host last w) (query_caa_server server host w)

  unfoldable pub lookup_caa : Text → World → Outcome (List CaaRecord) × World
  lookup_caa host w =
      let (file, w') = net.read_file (codes "/etc/resolv.conf") w in
      ask_servers (dns_servers net.is_ip file) host none w'

  -- A round of the search: the records end it, and else it goes on.
  abbrev pub found_or :
      Text
      → (World → Outcome (Text × List CaaRecord) × World)
      → Outcome (List CaaRecord) × World
      → Outcome (Text × List CaaRecord) × World
  found_or current next (ok [], w) = next w
  found_or current next (ok (r ∷ rs), w) = (ok (current, r ∷ rs), w)
  found_or current next (err e, w) = next w
  found_or current next (panic, w) = (panic, w)

  -- The search on fuel, one round for each; without fuel it is no result.
  unfoldable pub lookup_from : ℕ → Text → World → Outcome (Text × List CaaRecord) × World
  lookup_from zero current w = (panic, w)
  lookup_from (suc rounds) current w =
      if is_empty current
      then (ok ([], []), w)
      else found_or current (λ w. lookup_from rounds (parent_domain current) w)
          (lookup_caa current w)

  unfoldable pub lookup_caa_hierarchy : Text → World → Outcome (Text × List CaaRecord) × World
  lookup_caa_hierarchy host w =
      let trimmed = trim (trim_space host) (codes ".") in lookup_from (length trimmed + 1) trimmed w
