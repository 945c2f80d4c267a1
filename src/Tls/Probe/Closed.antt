-- ===== src/Tls/Probe/Closed.antt =====
-- Every connection that a probe opens is closed again.
use ssl_certificate_verifier.Base.{
  ℕ, suc, ◌≡◌, refl, ◌∙◌, Bool-cases, List, [], ◌∷◌, ◌++◌, Text, Option, none, some, ◌⊎◌, inl, inr,
}
use ssl_certificate_verifier.Types.{Options, Target, Duration, Instant, TlsCipherSupport}
use ssl_certificate_verifier.Tls.Names.{normalize_timeout}
use ssl_certificate_verifier.Tls.Cipher.{
  CipherSuite, cipher_suite_supports_version, classify_cipher,
}
use ssl_certificate_verifier.Tls.Connect.{
  Network, TlsConfig, ConnectionState, shaken, dialed, connect_tls_config, connect_tls,
}
use ssl_certificate_verifier.Tls.Probe.{
  probe_options, cipher_limit, version_limit, cipher_versions, probed_versions, version_entry,
  probe_versions, probe_tls_versions, cipher_config, cipher_entry, probe_suites,
  probe_cipher_versions, probe_tls_ciphers,
}

-- One more connection if there is one.
abbrev pub opened {ℓ} : {A : Type ℓ} → Text ⊎ A → ℕ → ℕ
opened (inl e) n = n
opened (inr a) n = suc n

-- `count` tells how many connections are open: a dial that succeeds opens one, `Close` closes one,
-- and nothing else changes the number.
pub record Counts {World Conn : Type 0} (net : Network World Conn) (count : World → ℕ)
    : Type 0 where
  pub dial_opens :
      (timeout : Duration) (address : Text) (w : World)
      → count (net.dial timeout address w).1 ≡ opened (net.dial timeout address w).0 (count w)
  pub deadline_keeps :
      (conn : Conn) (t : Option Instant) (w : World) → count (net.set_deadline conn t w) ≡ count w
  pub handshake_keeps :
      (conn : Conn) (cfg : TlsConfig) (w : World) → count (net.handshake conn cfg w).1 ≡ count w
  pub close_closes :
      (conn : Conn) (w : World) (n : ℕ) → count w ≡ suc n → count (net.close conn w) ≡ n

module _ {World Conn : Type 0} (net : Network World Conn) (count : World → ℕ)
    (counts : Counts net count) (target : Target) where
  shaken-opened :
      (conn : Conn) (r : Option Text × World) (n : ℕ)
      → count r.1 ≡ suc n
      → count (shaken net conn r).1 ≡ opened (shaken net conn r).0 n
  shaken-opened conn (some e, w) n h = counts.close_closes conn w n h
  shaken-opened conn (none, w) n h = counts.deadline_keeps conn none w ∙ h

  dialed-opened :
      (timeout : Duration) (cfg : TlsConfig) (r : (Text ⊎ Conn) × World) (n : ℕ)
      → count r.1 ≡ opened r.0 n
      → count (dialed net timeout cfg r).1 ≡ opened (dialed net timeout cfg r).0 n
  dialed-opened timeout cfg (inl e, w) n h = h
  dialed-opened timeout cfg (inr conn, w) n h =
      shaken-opened conn _ n
        (counts.handshake_keeps conn cfg _ ∙ counts.deadline_keeps conn _ w ∙ h)

  connect_tls_config-opened :
      (opt : Options) (cfg : TlsConfig) (w : World)
      → count (connect_tls_config net target opt cfg w).1
        ≡ opened (connect_tls_config net target opt cfg w).0 (count w)
  unfolding connect_tls_config
  connect_tls_config-opened opt cfg w =
      dialed-opened _ cfg _ (count w)
        (counts.dial_opens (normalize_timeout opt.timeout) target.address w)

  pub connect_tls-opened :
      (opt : Options) (min_version max_version : ℕ) (w : World)
      → count (connect_tls net target opt min_version max_version w).1
        ≡ opened (connect_tls net target opt min_version max_version w).0 (count w)
  unfolding connect_tls
  connect_tls-opened opt min_version max_version w = connect_tls_config-opened opt _ w

  cipher_entry-closed :
      (entry : TlsCipherSupport) (r : (Text ⊎ (Conn × ConnectionState)) × World) (n : ℕ)
      → count r.1 ≡ opened r.0 n
      → count (cipher_entry net target entry r).1 ≡ n
  cipher_entry-closed entry (inl e, w) n h = h
  cipher_entry-closed entry (inr (conn, state), w) n h = counts.close_closes conn w n h

  version_entry-closed :
      (name : Text) (r : (Text ⊎ (Conn × ConnectionState)) × World) (n : ℕ)
      → count r.1 ≡ opened r.0 n
      → count (version_entry net target name r).1 ≡ n
  version_entry-closed name (inl e, w) n h = h
  version_entry-closed name (inr (conn, state), w) n h = counts.close_closes conn w n h

  probe_versions-closed :
      (opt : Options) (versions : List (Text × ℕ)) (w : World)
      → count (probe_versions net target opt versions w).1 ≡ count w
  unfolding probe_versions connect_tls
  probe_versions-closed opt [] w = refl
  probe_versions-closed opt ((name, value) ∷ versions) w =
      probe_versions-closed opt versions _
      ∙ version_entry-closed name _ (count w) (connect_tls_config-opened opt _ w)

  probe_suites-closed :
      (opt : Options) (name : Text) (value : ℕ) (suites : List CipherSuite) (w : World)
      → count (probe_suites net target opt name value suites w).1 ≡ count w
  unfolding probe_suites
  probe_suites-closed opt name value [] w = refl
  probe_suites-closed opt name value (suite ∷ suites) w =
      let probed =
        connect_tls_config net target (probe_options cipher_limit opt)
          (cipher_config net target opt value suite) w in
      let after = (cipher_entry net target (classify_cipher name suite) probed).1 in
      let closed : count after ≡ count w =
        cipher_entry-closed (classify_cipher name suite) probed (count w) (
          connect_tls_config-opened (probe_options cipher_limit opt)
            (cipher_config net target opt value suite) w) in
      elim (Bool-cases (cipher_suite_supports_version (some suite) value)) [
        | inl fits ↦ rw fits (probe_suites-closed opt name value suites after ∙ closed)
        | inr other ↦ rw other (probe_suites-closed opt name value suites w)
      ]

  probe_cipher_versions-closed :
      (opt : Options) (versions : List (Text × ℕ)) (suites : List CipherSuite) (w : World)
      → count (probe_cipher_versions net target opt versions suites w).1 ≡ count w
  unfolding probe_cipher_versions
  probe_cipher_versions-closed opt [] suites w = refl
  probe_cipher_versions-closed opt ((name, value) ∷ versions) suites w =
      probe_cipher_versions-closed opt versions suites _
      ∙ probe_suites-closed opt name value suites w

-- The two probes leave as many connections open as they found, on every path, also if dials and
-- handshakes fail.
pub probes-closed :
    {World Conn : Type 0} (net : Network World Conn) (count : World → ℕ) (target : Target)
    (opt : Options) (w : World)
    → Counts net count
    → (count (probe_tls_versions net target opt w).1 ≡ count w)
      × (count (probe_tls_ciphers net target opt w).1 ≡ count w)
unfolding probe_tls_versions probe_tls_ciphers
probes-closed net count target opt w counts = (
  probe_versions-closed net count counts target (probe_options version_limit opt) probed_versions w,
  probe_cipher_versions-closed net count counts target opt cipher_versions
      (net.all_suites ++ net.insecure_suites) w,
)
