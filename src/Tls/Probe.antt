-- ===== src/Tls/Probe.antt =====
-- internal/checker/tls.go: `probeTLSVersions` and `probeTLSCiphers`.
pub mod Relation
pub mod Inventory
pub mod Closed
use ssl_certificate_verifier.Base.{
  ℕ, Bool, true, false, ◌||◌, List, [], ◌∷◌, ◌++◌, if◌then◌else◌, Text, codes, Option, none, some,
  ◌⊎◌, inl, inr,
}
use ssl_certificate_verifier.Base.Int.{ℤ, pos, leb_ℤ, ltb_ℤ}
use ssl_certificate_verifier.Types.{Options, Target, Duration, TlsVersionSupport, TlsCipherSupport}
use ssl_certificate_verifier.Tls.Version.{
  version_tls10, version_tls11, version_tls12, version_tls13,
}
use ssl_certificate_verifier.Tls.Names.{sni_name}
use ssl_certificate_verifier.Tls.ShortError.{short_error}
use ssl_certificate_verifier.Tls.Cipher.{
  CipherSuite, cipher_suite_supports_version, classify_cipher,
}
use ssl_certificate_verifier.Tls.Connect.{
  Network, TlsConfig, ConnectionState, protocols, connect_tls_config, connect_tls,
}

-- The options of a probe have a positive timeout up to a limit.
unfoldable pub probe_options : Duration → Options → Options
probe_options limit opt =
    if leb_ℤ opt.timeout (pos 0) || ltb_ℤ limit opt.timeout
    then record opt { timeout = limit }
    else opt

abbrev pub version_limit : Duration
version_limit = pos 4000000000

abbrev pub cipher_limit : Duration
cipher_limit = pos 1500000000

abbrev pub cipher_versions : List (Text × ℕ)
cipher_versions =
    (codes "TLS 1.0", version_tls10)
    ∷ (codes "TLS 1.1", version_tls11)
    ∷ (codes "TLS 1.2", version_tls12)
    ∷ []

abbrev pub probed_versions : List (Text × ℕ)
probed_versions = cipher_versions ++ (codes "TLS 1.3", version_tls13) ∷ []

module _ {World Conn : Type 0} (net : Network World Conn) (target : Target) where
  -- The entry for a version, and the connection closed.
  abbrev pub version_entry :
      Text → (Text ⊎ (Conn × ConnectionState)) × World → TlsVersionSupport × World
  version_entry name (inl e, w) = (
    record { version = name; supported = false; cipher_suite = []; error = short_error (some e) },
    w,
  )
  version_entry name (inr (conn, state), w) = (
    record {
      version = name;
      supported = true;
      cipher_suite = net.cipher_suite_name state.cipher_suite;
      error = [];
    },
    net.close conn w,
  )

  unfoldable pub probe_versions : Options → List (Text × ℕ) → World → List TlsVersionSupport × World
  probe_versions opt [] w = ([], w)
  probe_versions opt ((name, value) ∷ versions) w =
      let entry = version_entry name (connect_tls net target opt value value w) in
      let others = probe_versions opt versions entry.1 in (entry.0 ∷ others.0, others.1)

  unfoldable pub probe_tls_versions : Options → World → List TlsVersionSupport × World
  probe_tls_versions opt w = probe_versions (probe_options version_limit opt) probed_versions w

  abbrev pub cipher_config : Options → ℕ → CipherSuite → TlsConfig
  cipher_config opt value suite = record {
    server_name = sni_name target opt;
    insecure_skip_verify = true;
    min_version = value;
    max_version = value;
    cipher_suites = suite.id ∷ [];
    next_protos = protocols;
  }

  abbrev pub cipher_entry :
      TlsCipherSupport → (Text ⊎ (Conn × ConnectionState)) × World → TlsCipherSupport × World
  cipher_entry entry (inl e, w) =
      (record entry { supported = false; error = short_error (some e) }, w)
  cipher_entry entry (inr (conn, state), w) = (record entry { supported = true }, net.close conn w)

  -- The inner loop, over the suites of a version.
  pub probe_suites : Options → Text → ℕ → List CipherSuite → World → List TlsCipherSupport × World
  probe_suites opt name value [] w = ([], w)
  probe_suites opt name value (suite ∷ suites) w =
      let probe_opt = probe_options cipher_limit opt in
      let entry =
        cipher_entry (classify_cipher name suite)
          (connect_tls_config net target probe_opt (cipher_config opt value suite) w) in
      let others = probe_suites opt name value suites entry.1 in
      let skipped = probe_suites opt name value suites w in
      if cipher_suite_supports_version (some suite) value
      then (entry.0 ∷ others.0, others.1)
      else skipped

  -- The outer loop.
  pub probe_cipher_versions :
      Options → List (Text × ℕ) → List CipherSuite → World → List TlsCipherSupport × World
  probe_cipher_versions opt [] suites w = ([], w)
  probe_cipher_versions opt ((name, value) ∷ versions) suites w =
      let found = probe_suites opt name value suites w in
      let others = probe_cipher_versions opt versions suites found.1 in
      (found.0 ++ others.0, others.1)

  pub probe_tls_ciphers : Options → World → List TlsCipherSupport × World
  probe_tls_ciphers opt w =
      probe_cipher_versions opt cipher_versions (net.all_suites ++ net.insecure_suites) w
