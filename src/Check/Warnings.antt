-- ===== src/Check/Warnings.antt =====
-- What `checkTLS` makes of a report.
use ssl_certificate_verifier.Base.{
  ℕ, ◌≡◌, refl, true, List, [], ◌∷◌, ◌++◌, Text, codes, some, ◌⊎◌, inl, inr, Outcome, ok, err,
  panic, Returns,
}
use ssl_certificate_verifier.Types.{
  Options, Target, Result, CertificateInfo, TlsInfo, VerificationInfo,
}
use ssl_certificate_verifier.X509.{X509}
use ssl_certificate_verifier.Tls.ShortError.{short_error}
use ssl_certificate_verifier.Tls.Connect.{Network, ConnectionState, connect_tls}
use ssl_certificate_verifier.Tls.Connect.State.{
  IsConnection, refused, accepted, connect_tls-IsConnection,
}
use ssl_certificate_verifier.Cert.Info.Laws.{ReportsFrom, certificates_info-Returns}
use ssl_certificate_verifier.Verify.Roots.{Verifier}
use ssl_certificate_verifier.Verify.{verify_peer_certificates}
use ssl_certificate_verifier.Check.{inspected, handshaken, started, check_tls}

-- What the handshake has no part in.
pub record KeepsRest (before after : Result) : Type 0 where
  pub input_is : after.input ≡ before.input
  pub target_is : after.target ≡ before.target
  pub checked_at_is : after.checked_at ≡ before.checked_at
  pub protocol_is : after.protocol ≡ before.protocol
  pub http_is : after.http ≡ before.http
  pub dns_is : after.dns ≡ before.dns

-- The two outcomes for a report, by the connection that is made in the state `w`: a failure, which
-- is an error of the report and leaves the rest, and a connection, with a report on each
-- certificate that the network has for its peer, and with the verdict and the warnings of the
-- verification of these in the place of those before.
pub data IsChecked {World Conn Pool : Type 0} (x : X509) (v : Verifier Pool)
    (net : Network World Conn) (target : Target) (opt : Options) (min_version max_version : ℕ)
    (w : World) (before : Result) : Result → Type 0 where
  failed :
      (after : Result) (e : Text) (w1 : World)
      → connect_tls net target opt min_version max_version w ≡ (inl e, w1)
      → after.tls.attempted ≡ true
      → after.tls.connected ≡ before.tls.connected
      → after.errors ≡ before.errors ++ (codes "tls: " ++ short_error (some e)) ∷ []
      → after.warnings ≡ before.warnings
      → after.certificates ≡ before.certificates
      → after.verification ≡ before.verification
      → KeepsRest before after
      → IsChecked x v net target opt min_version max_version w before after
  connected :
      (after : Result) (conn : Conn) (w1 : World)
      → connect_tls net target opt min_version max_version w
        ≡ (inr (conn, net.connection_state conn w1), w1)
      → after.tls.attempted ≡ true
      → after.tls.connected ≡ true
      → ReportsFrom x before.checked_at 0
          (net.connection_state conn w1).peer_certificates
          after.certificates
      → after.verification
        ≡ (verify_peer_certificates x v
            (net.connection_state conn w1).peer_certificates
            target
            opt
            before.checked_at).0
      → after.warnings
        ≡ (verify_peer_certificates x v
            (net.connection_state conn w1).peer_certificates
            target
            opt
            before.checked_at).1
      → after.errors ≡ before.errors
      → KeepsRest before after
      → IsChecked x v net target opt min_version max_version w before after

handshake_keeps :
    (before : Result) (tls : TlsInfo) (certificates : List CertificateInfo)
    (verification : VerificationInfo) (warnings errors : List Text)
    → KeepsRest before (record before {
      tls = tls;
      certificates = certificates;
      verification = verification;
      warnings = warnings;
      errors = errors;
    })
handshake_keeps before tls certificates verification warnings errors = record {
  input_is = refl;
  target_is = refl;
  checked_at_is = refl;
  protocol_is = refl;
  http_is = refl;
  dns_is = refl;
}

module _ {World Conn Pool : Type 0} (x : X509) (v : Verifier Pool) (net : Network World Conn)
    (target : Target) (opt : Options) (min_version max_version : ℕ) (start : World) where
  abbrev Checks : Result → Result → Type 0
  Checks r = IsChecked x v net target opt min_version max_version start r

  inspected-IsChecked :
      (conn : Conn) (w : World) (r : Result) (infos : Outcome (List CertificateInfo))
      → connect_tls net target opt min_version max_version start
        ≡ (inr (conn, net.connection_state conn w), w)
      → Returns (ReportsFrom x r.checked_at 0 (net.connection_state conn w).peer_certificates) infos
      → Returns
          (Checks r)
          (inspected x v net target opt conn
            (net.connection_state conn w)
            (started x v net target opt r)
            infos
            w).0
  inspected-IsChecked conn w r (ok infos) e h =
      connected _ conn w e refl refl h refl refl refl (handshake_keeps r _ _ _ _ _)
  inspected-IsChecked conn w r (err message) e h = h
  inspected-IsChecked conn w r panic e h = h

  handshaken-IsChecked :
      (r : Result) (o : (Text ⊎ (Conn × ConnectionState)) × World)
      → connect_tls net target opt min_version max_version start ≡ o
      → IsConnection net o
      → Returns (Checks r) (handshaken x v net target opt (started x v net target opt r) o).0
  handshaken-IsChecked r _ e (refused message w) =
      failed _ message w e refl refl refl refl refl refl (handshake_keeps r _ _ _ _ _)
  handshaken-IsChecked r _ e (accepted conn w) = inspected-IsChecked conn w r _ e (
      certificates_info-Returns x (net.connection_state conn w).peer_certificates opt.include_pem
        r.checked_at)

-- `checkTLS` returns, whatever the network and the verifier give, and the report is marked as
-- attempted. Either the handshake failed, with its error as one error more and all else as it was,
-- or there is a report on each certificate that the network has for the peer of the connection, the
-- verdict of their verification, and its warnings in the place of all that were there before.
pub check_tls-IsChecked :
    {World Conn Pool : Type 0} (x : X509) (v : Verifier Pool) (net : Network World Conn)
    (target : Target) (opt : Options) (min_version max_version : ℕ) (r : Result) (w : World)
    → Returns
        (IsChecked x v net target opt min_version max_version w r)
        (check_tls x v net target opt min_version max_version r w).0
unfolding check_tls
check_tls-IsChecked x v net target opt min_version max_version r w =
    handshaken-IsChecked x v net target opt min_version max_version w r _ refl
      (connect_tls-IsConnection net target opt min_version max_version w)
