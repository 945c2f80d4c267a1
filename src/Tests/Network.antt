-- ===== src/Tests/Network.antt =====
-- internal/checker/tls.go: the probes on a network that refuses TLS 1.0. Its state is the number of
-- open connections.
use ssl_certificate_verifier.Base.{
  ℕ, suc, ◌-◌, ◌≡◌, refl, arith, true, false, [], ◌∷◌, ◌==◌, map, if◌then◌else◌, Text, codes,
  Option, none, some, inr,
}
use ssl_certificate_verifier.Base.Int.{pos}
use ssl_certificate_verifier.Strings.{text_runs}
use ssl_certificate_verifier.Types.{empty_options}
use ssl_certificate_verifier.Tls.Cipher.{CipherSuite}
use ssl_certificate_verifier.Tls.Connect.{Network, TlsConfig, connect_tls_config, connect_tls}
use ssl_certificate_verifier.Tls.Probe.{
  probe_options, version_limit, probe_options, cipher_versions, probe_versions, probe_tls_versions,
  probe_tls_ciphers,
}
use ssl_certificate_verifier.Tls.Probe.Relation.{ProbedVersions, ProbedCiphers}
use ssl_certificate_verifier.Tls.Probe.Inventory.{
  outline, inventory, probe_tls_ciphers-inventory, probe_tls_versions-Probed,
}
use ssl_certificate_verifier.Tls.Probe.Closed.{Counts, probes-closed}
use ssl_certificate_verifier.Tests.Verify.{target}

abbrev suite : CipherSuite
suite = record {
  id = 0xc013;
  name = codes "TLS_ECDHE_RSA_WITH_AES_128_CBC_SHA";
  supported_versions = 0x0301 ∷ 0x0302 ∷ 0x0303 ∷ [];
  insecure = false;
}

abbrev refused : TlsConfig → Option Text
refused cfg = if cfg.min_version == 0x0301 then some (codes "protocol version") else none

abbrev pub network : Network ℕ ℕ
network = record {
  now = λ w. pos 0;
  dial = λ timeout address w. (inr w, suc w);
  set_deadline = λ conn t w. w;
  handshake = λ conn cfg w. (refused cfg, w);
  connection_state = λ conn w. record {
    version = 0x0303;
    cipher_suite = 0xc013;
    negotiated_protocol = [];
    ocsp_response = [];
    signed_certificate_timestamps = [];
    peer_certificates = [];
  };
  close = λ conn w. w - 1;
  cipher_suite_name = λ id. codes "suite";
  all_suites = suite ∷ [];
  insecure_suites = [];
}

pub network-Counts : Counts network (λ w. w)
network-Counts = record {
  dial_opens = λ timeout address w. refl;
  deadline_keeps = λ conn t w. refl;
  handshake_keeps = λ conn cfg w. refl;
  close_closes = λ conn w n h. omega arith;
}

one_refused :
    map (λ v. v.supported) (probe_tls_versions network target empty_options 0).0
    ≡ false ∷ true ∷ true ∷ true ∷ []
unfolding probe_tls_versions probe_versions probe_options connect_tls connect_tls_config text_runs
one_refused = refl

probe_tls_versions-Probed_example :
    ProbedVersions network target
      (probe_options version_limit empty_options)
      ((codes "TLS 1.0", 0x0301)
        ∷ (codes "TLS 1.1", 0x0302)
        ∷ (codes "TLS 1.2", 0x0303)
        ∷ (codes "TLS 1.3", 0x0304)
        ∷ [])
      0
      (probe_tls_versions network target empty_options 0).0
      (probe_tls_versions network target empty_options 0).1
probe_tls_versions-Probed_example = probe_tls_versions-Probed network target empty_options 0

probe_tls_ciphers-inventory_example :
    (map outline (probe_tls_ciphers network target empty_options 0).0
      ≡ inventory cipher_versions (suite ∷ []))
    × ProbedCiphers network target empty_options
        (suite ∷ [])
        ((codes "TLS 1.0", 0x0301) ∷ (codes "TLS 1.1", 0x0302) ∷ (codes "TLS 1.2", 0x0303) ∷ [])
        0
        (probe_tls_ciphers network target empty_options 0).0
        (probe_tls_ciphers network target empty_options 0).1
probe_tls_ciphers-inventory_example = probe_tls_ciphers-inventory network target empty_options 0

probes-closed_example :
    ((probe_tls_versions network target empty_options 3).1 ≡ 3)
    × ((probe_tls_ciphers network target empty_options 3).1 ≡ 3)
probes-closed_example = probes-closed network (λ w. w) target empty_options 3 network-Counts
