-- ===== src/Check.antt =====
-- internal/checker/check.go: `checkTLS`. The context belongs to the state of the world.
pub mod Warnings
pub mod Closed
pub mod Http
pub mod Run
use ssl_certificate_verifier.Base.{
  ℕ, ltb, length, Bool, true, false, not, List, [], ◌∷◌, ◌++◌, if◌then◌else◌, Text, codes, Option,
  some, ◌⊎◌, inl, inr, Outcome, ok, err, panic,
}
use ssl_certificate_verifier.Types.{
  Options, Target, Result, TlsInfo, TlsVersionSupport, TlsCipherSupport, CertificateInfo,
}
use ssl_certificate_verifier.X509.{X509}
use ssl_certificate_verifier.Tls.Names.{sni_name}
use ssl_certificate_verifier.Tls.Version.{tls_version_name}
use ssl_certificate_verifier.Tls.ShortError.{short_error}
use ssl_certificate_verifier.Tls.Connect.{Network, ConnectionState, connect_tls}
use ssl_certificate_verifier.Tls.Probe.{probe_tls_versions, probe_tls_ciphers}
use ssl_certificate_verifier.Cert.Info.{certificates_info}
use ssl_certificate_verifier.Verify.Roots.{Verifier}
use ssl_certificate_verifier.Verify.{verify_peer_certificates}

module _ {World Conn Pool : Type 0} (x : X509) (v : Verifier Pool) (net : Network World Conn) where
  -- The report of a connection that failed.
  abbrev refused : Result → Text → Result
  refused r e = record r {
    tls = record r.tls { error = short_error (some e) };
    errors = r.errors ++ (codes "tls: " ++ short_error (some e)) ∷ [];
  }

  abbrev negotiated : TlsInfo → ConnectionState → TlsInfo
  negotiated tls state = record tls {
    connected = true;
    negotiated_version = tls_version_name state.version;
    cipher_suite = net.cipher_suite_name state.cipher_suite;
    alpn = state.negotiated_protocol;
    ocsp_stapled = ltb 0 (length state.ocsp_response);
    ocsp_response_bytes = length state.ocsp_response;
    sct_count = length state.signed_certificate_timestamps;
    peer_certificate_count = length state.peer_certificates;
  }

  -- The certificates and their verification, whose warnings replace those of the report.
  abbrev reported : Target → Options → ConnectionState → Result → List CertificateInfo → Result
  reported target opt state r infos =
      let verified = verify_peer_certificates x v state.peer_certificates target opt r.checked_at in
      record r {
        tls = negotiated r.tls state;
        certificates = infos;
        verification = verified.0;
        warnings = verified.1;
      }

  abbrev version_probes : Target → Options → TlsInfo → World → List TlsVersionSupport × World
  version_probes target opt tls w =
      if not opt.skip_tls_probe
      then probe_tls_versions net target opt w
      else (tls.supported_versions, w)

  abbrev cipher_probes : Target → Options → TlsInfo → World → List TlsCipherSupport × World
  cipher_probes target opt tls w =
      if not opt.skip_ciphers
      then probe_tls_ciphers net target opt w
      else (tls.supported_ciphers, w)

  -- The probes, and the deferred `Close`.
  abbrev probed : Target → Options → Conn → Result → World → Result × World
  probed target opt conn r w =
      let versions = version_probes target opt r.tls w in
      let ciphers = cipher_probes target opt r.tls versions.1 in
      (
        record r {
          tls = record r.tls { supported_versions = versions.0; supported_ciphers = ciphers.0 };
        },
        net.close conn ciphers.1,
      )

  abbrev inspected :
      Target
      → Options
      → Conn
      → ConnectionState
      → Result
      → Outcome (List CertificateInfo)
      → World
      → Outcome Result × World
  inspected target opt conn state r (ok infos) w =
      let after = probed target opt conn (reported target opt state r infos) w in
      (ok after.0, after.1)
  inspected target opt conn state r (err e) w = (err e, net.close conn w)
  inspected target opt conn state r panic w = (panic, net.close conn w)

  abbrev handshaken :
      Target → Options → Result → (Text ⊎ (Conn × ConnectionState)) × World → Outcome Result × World
  handshaken target opt r (inl e, w) = (ok (refused r e), w)
  handshaken target opt r (inr (conn, state), w) =
      inspected target opt conn state r
        (certificates_info x state.peer_certificates opt.include_pem r.checked_at) w

  abbrev started : Target → Options → Result → Result
  started target opt r = record r {
    tls = record r.tls { attempted = true; sni = sni_name target opt };
  }

  pub check_tls : Target → Options → ℕ → ℕ → Result → World → Outcome Result × World
  check_tls target opt min_version max_version r w =
      handshaken target opt (started target opt r)
        (connect_tls net target opt min_version max_version w)
