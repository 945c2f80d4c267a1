-- ===== src/Tls/Probe/Inventory.antt =====
-- The probes ask for every version and suite, whatever the network answers.
use ssl_certificate_verifier.Base.{
  ℕ, ◌≡◌, refl, ap, true, false, List, [], ◌∷◌, ◌++◌, map, if◌then◌else◌, Text, codes, some, ◌⊎◌,
  inl, inr, Bool-cases,
}
use ssl_certificate_verifier.Types.{Options, Target, TlsCipherSupport}
use ssl_certificate_verifier.Tls.Cipher.{
  CipherSuite, cipher_suite_supports_version, classify_cipher,
}
use ssl_certificate_verifier.Tls.Connect.{Network, ConnectionState, connect_tls_config, connect_tls}
use ssl_certificate_verifier.Tls.Connect.State.{
  IsConnection, refused, accepted, connect_tls_config-IsConnection, connect_tls-IsConnection,
}
use ssl_certificate_verifier.Tls.Probe.Relation.{
  ProbedVersions, no_versions, version_accepted, version_refused, ProbedSuites, no_suites,
  not_in_version, suite_accepted, suite_refused, ProbedCiphers, no_more, one_version,
}
use ssl_certificate_verifier.Tls.Probe.{
  probe_options, cipher_limit, version_limit, cipher_versions, probed_versions, version_entry,
  probe_versions, probe_tls_versions, cipher_config, cipher_entry, probe_suites,
  probe_cipher_versions, probe_tls_ciphers,
}

-- The suites that can be negotiated in a version, classified.
abbrev suites_of : Text → ℕ → List CipherSuite → List TlsCipherSupport
suites_of name value [] = []
suites_of name value (suite ∷ suites) =
    let others = suites_of name value suites in
    if cipher_suite_supports_version (some suite) value
    then classify_cipher name suite ∷ others
    else others

abbrev pub inventory : List (Text × ℕ) → List CipherSuite → List TlsCipherSupport
inventory [] suites = []
inventory ((name, value) ∷ versions) suites =
    suites_of name value suites ++ inventory versions suites

-- An entry without the outcome of its probe.
abbrev pub outline : TlsCipherSupport → TlsCipherSupport
outline entry = record entry { supported = false; error = [] }

map-append :
    (xs ys : List TlsCipherSupport) → map outline (xs ++ ys) ≡ map outline xs ++ map outline ys
map-append [] ys = refl
map-append (x ∷ xs) ys = ap (λ zs. outline x ∷ zs) (map-append xs ys)

outline-classify :
    (name : Text) (suite : CipherSuite)
    → outline (classify_cipher name suite) ≡ classify_cipher name suite
unfolding classify_cipher
outline-classify name suite = refl

module _ {World Conn : Type 0} (net : Network World Conn) (target : Target) (opt : Options) where
  cipher_entry-outline :
      (entry : TlsCipherSupport) (r : (Text ⊎ (Conn × ConnectionState)) × World)
      → outline (cipher_entry net target entry r).0 ≡ outline entry
  cipher_entry-outline entry (inl e, w) = refl
  cipher_entry-outline entry (inr (conn, state), w) = refl

  probe_suites-outline :
      (name : Text) (value : ℕ) (suites : List CipherSuite) (w : World)
      → map outline (probe_suites net target opt name value suites w).0
        ≡ suites_of name value suites
  unfolding probe_suites
  probe_suites-outline name value [] w = refl
  probe_suites-outline name value (suite ∷ suites) w =
      let probed =
        connect_tls_config net target (probe_options cipher_limit opt)
          (cipher_config net target opt value suite) w in
      let after = (cipher_entry net target (classify_cipher name suite) probed).1 in
      elim (Bool-cases (cipher_suite_supports_version (some suite) value)) [
        | inl fits ↦
            rw
              (
                fits,
                cipher_entry-outline (classify_cipher name suite) probed,
                outline-classify name suite,
                probe_suites-outline name value suites after,
              )
              refl
        | inr other ↦ rw (other, probe_suites-outline name value suites w) refl
      ]

  probe_cipher_versions-outline :
      (versions : List (Text × ℕ)) (suites : List CipherSuite) (w : World)
      → map outline (probe_cipher_versions net target opt versions suites w).0
        ≡ inventory versions suites
  unfolding probe_cipher_versions
  probe_cipher_versions-outline [] suites w = refl
  probe_cipher_versions-outline ((name, value) ∷ versions) suites w =
      rw
        (
          map-append,
          probe_suites-outline name value suites w,
          probe_cipher_versions-outline versions suites,
        )
        refl

module _ {World Conn : Type 0} (net : Network World Conn) (target : Target) where
  probe_versions-Probed :
      (opt : Options) (versions : List (Text × ℕ)) (w : World)
      → ProbedVersions net target opt versions w
          (probe_versions net target opt versions w).0
          (probe_versions net target opt versions w).1
  unfolding probe_versions
  probe_versions-Probed opt [] w = no_versions w
  probe_versions-Probed opt ((name, value) ∷ versions) w =
      at (probe_versions-Probed opt versions) (connect_tls net target opt value value w) refl
        (connect_tls-IsConnection net target opt value value w)
    where
      at :
          ((w : World)
            → ProbedVersions net target opt versions w
                (probe_versions net target opt versions w).0
                (probe_versions net target opt versions w).1)
          → (r : (Text ⊎ (Conn × ConnectionState)) × World)
          → connect_tls net target opt value value w ≡ r
          → IsConnection net r
          → (let entry = version_entry net target name r in
              let others = probe_versions net target opt versions entry.1 in
              ProbedVersions net target opt
                ((name, value) ∷ versions)
                w
                (entry.0 ∷ others.0)
                others.1)
      at others _ e (refused message w1) =
          version_refused name value versions w w1 _ message _ e (others w1)
      at others _ e (accepted conn w1) =
          version_accepted name value versions w w1 _ conn _ e (others (net.close conn w1))

  probe_suites-Probed :
      (opt : Options) (name : Text) (value : ℕ) (suites : List CipherSuite) (w : World)
      → ProbedSuites net target opt name value suites w
          (probe_suites net target opt name value suites w).0
          (probe_suites net target opt name value suites w).1
  unfolding probe_suites
  probe_suites-Probed opt name value [] w = no_suites w
  probe_suites-Probed opt name value (suite ∷ suites) w =
      elim (Bool-cases (cipher_suite_supports_version (some suite) value)) [
        | inl fits ↦ rw fits (
            at (probe_suites-Probed opt name value suites) fits
              (connect_tls_config net target (probe_options cipher_limit opt)
                (cipher_config net target opt value suite) w)
              refl
              (connect_tls_config-IsConnection net target (probe_options cipher_limit opt)
                (cipher_config net target opt value suite) w))
        | inr other ↦
            rw other (
              not_in_version suite suites w _ _ other (probe_suites-Probed opt name value suites w))
      ]
    where
      at :
          ((w : World)
            → ProbedSuites net target opt name value suites w
                (probe_suites net target opt name value suites w).0
                (probe_suites net target opt name value suites w).1)
          → cipher_suite_supports_version (some suite) value ≡ true
          → (r : (Text ⊎ (Conn × ConnectionState)) × World)
          → connect_tls_config net target
              (probe_options cipher_limit opt)
              (cipher_config net target opt value suite)
              w
            ≡ r
          → IsConnection net r
          → (let entry = cipher_entry net target (classify_cipher name suite) r in
              let others = probe_suites net target opt name value suites entry.1 in
              ProbedSuites net target opt name value
                (suite ∷ suites)
                w
                (entry.0 ∷ others.0)
                others.1)
      at others fits _ e (refused message w1) =
          suite_refused suite suites w w1 _ message _ fits e (others w1)
      at others fits _ e (accepted conn w1) =
          suite_accepted suite suites w w1 _ conn _ fits e (others (net.close conn w1))

  probe_cipher_versions-Probed :
      (opt : Options) (versions : List (Text × ℕ)) (suites : List CipherSuite) (w : World)
      → ProbedCiphers net target opt suites versions w
          (probe_cipher_versions net target opt versions suites w).0
          (probe_cipher_versions net target opt versions suites w).1
  unfolding probe_cipher_versions
  probe_cipher_versions-Probed opt [] suites w = no_more w
  probe_cipher_versions-Probed opt ((name, value) ∷ versions) suites w =
      one_version name value versions w _ _ _ _ (probe_suites-Probed opt name value suites w)
        (probe_cipher_versions-Probed opt versions suites _)

-- `probeTLSCiphers` tries each suite that Go knows, for each of TLS 1.0 to 1.2 that it can be
-- negotiated in, in order, with a handshake for just that suite and version in the state that the
-- one before has left. There is one entry for each, classified, and supported just if its handshake
-- has succeeded, and else with its error.
pub probe_tls_ciphers-inventory :
    {World Conn : Type 0} (net : Network World Conn) (target : Target) (opt : Options) (w : World)
    → (map outline (probe_tls_ciphers net target opt w).0
        ≡ inventory cipher_versions (net.all_suites ++ net.insecure_suites))
      × ProbedCiphers net target opt
          (net.all_suites ++ net.insecure_suites)
          ((codes "TLS 1.0", 0x0301) ∷ (codes "TLS 1.1", 0x0302) ∷ (codes "TLS 1.2", 0x0303) ∷ [])
          w
          (probe_tls_ciphers net target opt w).0
          (probe_tls_ciphers net target opt w).1
unfolding probe_tls_ciphers
probe_tls_ciphers-inventory net target opt w = (
  probe_cipher_versions-outline net target opt cipher_versions
      (net.all_suites ++ net.insecure_suites) w,
  probe_cipher_versions-Probed net target opt cipher_versions
      (net.all_suites ++ net.insecure_suites) w,
)

-- `probeTLSVersions` tries TLS 1.0, 1.1, 1.2 and 1.3 in this order, each in the state that the one
-- before has left. The entry of a version is supported, with the suite of the connection, if the
-- handshake with just that version has succeeded, and else not, with its error.
pub probe_tls_versions-Probed :
    {World Conn : Type 0} (net : Network World Conn) (target : Target) (opt : Options) (w : World)
    → ProbedVersions net target
        (probe_options version_limit opt)
        ((codes "TLS 1.0", 0x0301)
          ∷ (codes "TLS 1.1", 0x0302)
          ∷ (codes "TLS 1.2", 0x0303)
          ∷ (codes "TLS 1.3", 0x0304)
          ∷ [])
        w
        (probe_tls_versions net target opt w).0
        (probe_tls_versions net target opt w).1
unfolding probe_tls_versions
probe_tls_versions-Probed net target opt w =
    probe_versions-Probed net target (probe_options version_limit opt) probed_versions w
