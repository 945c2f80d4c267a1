-- ===== src/Tls/Connect/State.antt =====
-- What `connectTLS` gives back.
use ssl_certificate_verifier.Base.{ℕ, Text, Option, none, some, ◌⊎◌, inl, inr}
use ssl_certificate_verifier.Types.{Options, Target, Duration}
use ssl_certificate_verifier.Tls.Connect.{
  Network, TlsConfig, ConnectionState, shaken, dialed, connect_tls_config, connect_tls,
}

module _ {World Conn : Type 0} (net : Network World Conn) where
  -- An error, or a connection with the state that the network has for it.
  pub data IsConnection : (Text ⊎ (Conn × ConnectionState)) × World → Type 0 where
    refused : (e : Text) (w : World) → IsConnection (inl e, w)
    accepted : (conn : Conn) (w : World) → IsConnection (inr (conn, net.connection_state conn w), w)

  shaken-IsConnection : (conn : Conn) (o : Option Text × World) → IsConnection (shaken net conn o)
  shaken-IsConnection conn (some e, w) = refused e (net.close conn w)
  shaken-IsConnection conn (none, w) = accepted conn (net.set_deadline conn none w)

  dialed-IsConnection :
      (timeout : Duration) (cfg : TlsConfig) (o : (Text ⊎ Conn) × World)
      → IsConnection (dialed net timeout cfg o)
  dialed-IsConnection timeout cfg (inl e, w) = refused e w
  dialed-IsConnection timeout cfg (inr conn, w) = shaken-IsConnection conn _

  pub connect_tls_config-IsConnection :
      (target : Target) (opt : Options) (cfg : TlsConfig) (w : World)
      → IsConnection (connect_tls_config net target opt cfg w)
  unfolding connect_tls_config
  connect_tls_config-IsConnection target opt cfg w = dialed-IsConnection _ cfg _

  pub connect_tls-IsConnection :
      (target : Target) (opt : Options) (min_version max_version : ℕ) (w : World)
      → IsConnection (connect_tls net target opt min_version max_version w)
  unfolding connect_tls
  connect_tls-IsConnection target opt min_version max_version w =
      connect_tls_config-IsConnection target opt _ w
