-- ===== src/Tls/Connect.antt =====
-- internal/checker/tls.go: `connectTLS` and `connectTLSConfig`. The network, the clock and the
-- operations of crypto/tls are the fields of a parameter, over a type of states of the world, which
-- each operation passes on. The context of a call belongs to that state.
pub mod State
use ssl_certificate_verifier.Base.{
  ℕ, Bool, true, List, [], ◌∷◌, Text, codes, Option, none, some, ◌⊎◌, inl, inr,
}
use ssl_certificate_verifier.Base.Int.{◌+ℤ◌}
use ssl_certificate_verifier.Types.{Options, Target, Bytes, Duration, Instant}
use ssl_certificate_verifier.X509.{Certificate}
use ssl_certificate_verifier.Tls.Names.{normalize_timeout, sni_name}
use ssl_certificate_verifier.Tls.Cipher.{CipherSuite}

-- `tls.Config`; no suites stand for the default ones, and the version 0 for no bound.
pub record TlsConfig : Type 0 where
  pub server_name : Text
  pub insecure_skip_verify : Bool
  pub min_version : ℕ
  pub max_version : ℕ
  pub cipher_suites : List ℕ
  pub next_protos : List Text

-- `tls.ConnectionState`.
pub record ConnectionState : Type 0 where
  pub version : ℕ
  pub cipher_suite : ℕ
  pub negotiated_protocol : Text
  pub ocsp_response : Bytes
  pub signed_certificate_timestamps : List Bytes
  pub peer_certificates : List Certificate

-- A dialled connection is a value or an error; a handshake gives an error or none.
pub record Network (World Conn : Type 0) : Type 0 where
  pub now : World → Instant
  pub dial : Duration → Text → World → (Text ⊎ Conn) × World
  pub set_deadline : Conn → Option Instant → World → World
  pub handshake : Conn → TlsConfig → World → Option Text × World
  pub connection_state : Conn → World → ConnectionState
  pub close : Conn → World → World
  pub cipher_suite_name : ℕ → Text
  pub all_suites : List CipherSuite
  pub insecure_suites : List CipherSuite

abbrev pub protocols : List Text
protocols = codes "h2" ∷ codes "http/1.1" ∷ []

module _ {World Conn : Type 0} (net : Network World Conn) where
  -- After the handshake: a connection that failed is closed.
  abbrev pub shaken : Conn → Option Text × World → (Text ⊎ (Conn × ConnectionState)) × World
  shaken conn (some e, w) = (inl e, net.close conn w)
  shaken conn (none, w) =
      let w' = net.set_deadline conn none w in (inr (conn, net.connection_state conn w'), w')

  abbrev pub dialed :
      Duration → TlsConfig → (Text ⊎ Conn) × World → (Text ⊎ (Conn × ConnectionState)) × World
  dialed timeout cfg (inl e, w) = (inl e, w)
  dialed timeout cfg (inr conn, w) =
      shaken conn (net.handshake conn cfg (net.set_deadline conn (some (net.now w +ℤ timeout)) w))

  unfoldable pub connect_tls_config :
      Target → Options → TlsConfig → World → (Text ⊎ (Conn × ConnectionState)) × World
  connect_tls_config target opt cfg w =
      let timeout = normalize_timeout opt.timeout in
      dialed timeout cfg (net.dial timeout target.address w)

  unfoldable pub connect_tls :
      Target → Options → ℕ → ℕ → World → (Text ⊎ (Conn × ConnectionState)) × World
  connect_tls target opt min_version max_version w =
      connect_tls_config target opt
        (record {
          server_name = sni_name target opt;
          insecure_skip_verify = true;
          min_version = min_version;
          max_version = max_version;
          cipher_suites = [];
          next_protos = protocols;
        })
        w
