-- ===== src/Dns/Servers.antt =====
-- internal/checker/dns.go: `dnsServers`.
use ssl_certificate_verifier.Base.{
  ◌+◌, ◌≤◌, ◌<◌, ◌≡◌, ◌⊎◌, inl, inr, refl, arith, Bool, true, false, ◌&&◌, List, [], ◌∷◌, ◌++◌,
  ◌==◌, if◌then◌else◌, Text, codes, str_eq, is_empty, length, length-append, All, Option, none,
  some, Bool-cases,
}
use ssl_certificate_verifier.Strings.{split, fields, trim, join_host_port}

unfoldable pub fallback_dns_servers : List Text
fallback_dns_servers = codes "1.1.1.1:53" ∷ codes "8.8.8.8:53" ∷ []

is_empty-length : (ss : List Text) → is_empty ss ≡ false → 1 ≤ length ss
is_empty-length [] h = cc
is_empty-length (s ∷ ss) h = omega arith

module _ (is_ip : Text → Bool) where
  -- The server that the words of a line name, if they name one.
  abbrev server_of : List Text → Option Text
  server_of [] = none
  server_of (word ∷ []) = none
  server_of (word ∷ address ∷ words) =
      let host = trim address (codes "[]") in
      if str_eq word (codes "nameserver") && is_ip host
      then some (join_host_port host (codes "53"))
      else none

  -- The rest of a round: the server is added, and the third one ends the loop.
  abbrev add_server : (List Text → List Text) → List Text → Option Text → List Text
  add_server next servers none = next servers
  add_server next servers (some server) =
      let added = servers ++ server ∷ [] in if length added == 3 then added else next added

  -- The loop over the lines.
  unfoldable pub servers_from : List Text → List Text → List Text
  servers_from [] servers = servers
  servers_from (line ∷ lines) servers =
      add_server (λ added. servers_from lines added) servers (server_of (fields line))

  -- `data` and `err` are what reading `/etc/resolv.conf` gives.
  unfoldable pub dns_servers : Text × Option Text → List Text
  dns_servers (text, some e) = fallback_dns_servers
  dns_servers (text, none) =
      let servers = servers_from (split text b'\n') [] in
      if is_empty servers then fallback_dns_servers else servers

  -- A server of the fallback, or the address of an IP address at port 53.
  abbrev pub IsServer : Text → Type 0
  IsServer s =
      (s ≡ codes "1.1.1.1:53")
      ⊎ (s ≡ codes "8.8.8.8:53")
      ⊎ (host : Text) × (is_ip host ≡ true) × (s ≡ join_host_port host (codes "53"))

  All-snoc :
      (ss : List Text) (s : Text) → All IsServer ss → IsServer s → All IsServer (ss ++ s ∷ [])
  All-snoc [] s h k = (k, tt)
  All-snoc (x ∷ ss) s h k = (h.0, All-snoc ss s h.1 k)

  server_of-IsServer : (words : List Text) (s : Text) → server_of words ≡ some s → IsServer s
  server_of-IsServer [] s e = cc
  server_of-IsServer (word ∷ []) s e = cc
  server_of-IsServer (word ∷ address ∷ words) s e =
      inr (inr (trim address (codes "[]"), ground arith, ground arith))

  add_server-IsServer :
      (next : List Text → List Text) (servers : List Text) (found : Option Text)
      → ((ss : List Text)
          → length ss < 3
          → All IsServer ss
          → (length (next ss) ≤ 3) × All IsServer (next ss))
      → ((server : Text) → found ≡ some server → IsServer server)
      → length servers < 3
      → All IsServer servers
      → (length (add_server next servers found) ≤ 3) × All IsServer (add_server next servers found)
  add_server-IsServer next servers none rest is_server h k = rest servers h k
  add_server-IsServer next servers (some server) rest is_server h k =
      let added = servers ++ server ∷ [] in
      let all = All-snoc servers server k (is_server server refl) in
      let size : length added ≡ length servers + 1 =
        omega (arith, length-append servers (server ∷ [])) in
      elim (Bool-cases (length added == 3)) [
        | inl full ↦ rw full (omega (arith, size), all)
        | inr more ↦ rw more (rest added (ground (arith, size)) all)
      ]

  servers_from-IsServer :
      (lines servers : List Text)
      → length servers < 3
      → All IsServer servers
      → (length (servers_from lines servers) ≤ 3) × All IsServer (servers_from lines servers)
  unfolding servers_from
  servers_from-IsServer [] servers h k = (omega arith, k)
  servers_from-IsServer (line ∷ lines) servers h k =
      add_server-IsServer (λ added. servers_from lines added) servers (server_of (fields line))
        (λ ss. servers_from-IsServer lines ss) (λ s. server_of-IsServer (fields line) s) h k

-- Whatever the file holds, there are one to three servers, and each is one of the two of the
-- fallback, or an IP address with port 53.
pub dns_servers-IsServer :
    (is_ip : Text → Bool) (read : Text × Option Text)
    → (1 ≤ length (dns_servers is_ip read))
      × (length (dns_servers is_ip read) ≤ 3)
      × All (IsServer is_ip) (dns_servers is_ip read)
unfolding dns_servers fallback_dns_servers
dns_servers-IsServer is_ip (text, some e) =
    (omega arith, omega arith, (inl refl, (inr (inl refl), tt)))
dns_servers-IsServer is_ip (text, none) =
    let servers = servers_from is_ip (split text b'\n') [] in
    let (few, all) = servers_from-IsServer is_ip (split text b'\n') [] (omega arith) tt in
    elim (Bool-cases (is_empty servers)) [
      | inl none_found ↦ rw none_found (omega arith, omega arith, (inl refl, (inr (inl refl), tt)))
      | inr found ↦ rw found (is_empty-length servers found, few, all)
    ]
