-- ===== src/Tls/Probe/Relation.antt =====
-- How the probes of versions and suites go, as relations on the network.
use ssl_certificate_verifier.Base.{
  ℕ, ◌≡◌, true, false, List, [], ◌∷◌, ◌++◌, Text, codes, some, inl, inr,
}
use ssl_certificate_verifier.Types.{Options, Target, TlsVersionSupport, TlsCipherSupport}
use ssl_certificate_verifier.Tls.Cipher.{
  CipherSuite, cipher_suite_supports_version, classify_cipher,
}
use ssl_certificate_verifier.Tls.Connect.{Network, connect_tls_config, connect_tls}
use ssl_certificate_verifier.Tls.Names.{sni_name}
use ssl_certificate_verifier.Tls.ShortError.{short_error}
use ssl_certificate_verifier.Tls.Probe.{probe_options, cipher_limit}

module _ {World Conn : Type 0} (net : Network World Conn) (target : Target) where
  -- The versions are tried one after the other, each in the state that the one before has left. An
  -- entry is supported if the handshake with just that version has succeeded, and has the suite of
  -- the connection, which is closed; else it has the error of the handshake.
  pub data ProbedVersions (opt : Options)
      : List (Text × ℕ) → World → List TlsVersionSupport → World → Type 0 where
    no_versions : (w : World) → ProbedVersions opt [] w [] w
    version_accepted :
        (name : Text) (value : ℕ) (versions : List (Text × ℕ)) (w w1 w2 : World) (conn : Conn)
        (entries : List TlsVersionSupport)
        → connect_tls net target opt value value w ≡ (inr (conn, net.connection_state conn w1), w1)
        → ProbedVersions opt versions (net.close conn w1) entries w2
        → ProbedVersions opt
            ((name, value) ∷ versions)
            w
            (record {
              version = name;
              supported = true;
              cipher_suite = net.cipher_suite_name (net.connection_state conn w1).cipher_suite;
              error = [];
            }
              ∷ entries)
            w2
    version_refused :
        (name : Text) (value : ℕ) (versions : List (Text × ℕ)) (w w1 w2 : World) (e : Text)
        (entries : List TlsVersionSupport)
        → connect_tls net target opt value value w ≡ (inl e, w1)
        → ProbedVersions opt versions w1 entries w2
        → ProbedVersions opt
            ((name, value) ∷ versions)
            w
            (record {
              version = name;
              supported = false;
              cipher_suite = [];
              error = short_error (some e);
            }
              ∷ entries)
            w2

  -- The suites in the same way for one version, less those that it does not have.
  pub data ProbedSuites (opt : Options) (name : Text) (value : ℕ)
      : List CipherSuite → World → List TlsCipherSupport → World → Type 0 where
    no_suites : (w : World) → ProbedSuites opt name value [] w [] w
    not_in_version :
        (suite : CipherSuite) (suites : List CipherSuite) (w w2 : World)
        (entries : List TlsCipherSupport)
        → cipher_suite_supports_version (some suite) value ≡ false
        → ProbedSuites opt name value suites w entries w2
        → ProbedSuites opt name value (suite ∷ suites) w entries w2
    suite_accepted :
        (suite : CipherSuite) (suites : List CipherSuite) (w w1 w2 : World) (conn : Conn)
        (entries : List TlsCipherSupport)
        → cipher_suite_supports_version (some suite) value ≡ true
        → connect_tls_config net target
            (probe_options cipher_limit opt)
            (record {
              server_name = sni_name target opt;
              insecure_skip_verify = true;
              min_version = value;
              max_version = value;
              cipher_suites = suite.id ∷ [];
              next_protos = codes "h2" ∷ codes "http/1.1" ∷ [];
            })
            w
          ≡ (inr (conn, net.connection_state conn w1), w1)
        → ProbedSuites opt name value suites (net.close conn w1) entries w2
        → ProbedSuites opt name value
            (suite ∷ suites)
            w
            (record (classify_cipher name suite) { supported = true } ∷ entries)
            w2
    suite_refused :
        (suite : CipherSuite) (suites : List CipherSuite) (w w1 w2 : World) (e : Text)
        (entries : List TlsCipherSupport)
        → cipher_suite_supports_version (some suite) value ≡ true
        → connect_tls_config net target
            (probe_options cipher_limit opt)
            (record {
              server_name = sni_name target opt;
              insecure_skip_verify = true;
              min_version = value;
              max_version = value;
              cipher_suites = suite.id ∷ [];
              next_protos = codes "h2" ∷ codes "http/1.1" ∷ [];
            })
            w
          ≡ (inl e, w1)
        → ProbedSuites opt name value suites w1 entries w2
        → ProbedSuites opt name value
            (suite ∷ suites)
            w
            (record (classify_cipher name suite) { supported = false; error = short_error (some e) }
              ∷ entries)
            w2

  pub data ProbedCiphers (opt : Options) (suites : List CipherSuite)
      : List (Text × ℕ) → World → List TlsCipherSupport → World → Type 0 where
    no_more : (w : World) → ProbedCiphers opt suites [] w [] w
    one_version :
        (name : Text) (value : ℕ) (versions : List (Text × ℕ)) (w w1 w2 : World)
        (found others : List TlsCipherSupport)
        → ProbedSuites opt name value suites w found w1
        → ProbedCiphers opt suites versions w1 others w2
        → ProbedCiphers opt suites ((name, value) ∷ versions) w (found ++ others) w2
