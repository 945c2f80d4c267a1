-- ===== src/Check/Closed.antt =====
-- `checkTLS` closes its connections.
use ssl_certificate_verifier.Base.{
  ℕ, suc, ◌≡◌, refl, ◌∙◌, Bool, true, false, not, List, Text, if◌then◌else◌, ◌⊎◌, inl, inr, Outcome,
  ok, err, panic,
}
use ssl_certificate_verifier.Types.{Options, Target, Result, CertificateInfo, TlsInfo}
use ssl_certificate_verifier.X509.{X509}
use ssl_certificate_verifier.Tls.Connect.{Network, ConnectionState}
use ssl_certificate_verifier.Tls.Probe.Closed.{Counts, opened, connect_tls-opened, probes-closed}
use ssl_certificate_verifier.Verify.Roots.{Verifier}
use ssl_certificate_verifier.Check.{
  negotiated, version_probes, cipher_probes, inspected, handshaken, started, check_tls,
}

module _ {World Conn Pool : Type 0} (x : X509) (v : Verifier Pool) (net : Network World Conn)
    (count : World → ℕ) (counts : Counts net count) (target : Target) (opt : Options) where
  either_count :
      {A : Type 0} (b : Bool) (p q : A × World) (n : ℕ)
      → count p.1 ≡ n
      → count q.1 ≡ n
      → count (if b then p else q).1 ≡ n
  either_count true p q n h k = h
  either_count false p q n h k = k

  version_probes-closed :
      (tls : TlsInfo) (w : World) → count (version_probes x v net target opt tls w).1 ≡ count w
  version_probes-closed tls w =
      either_count (not opt.skip_tls_probe) _ _ (count w)
        (probes-closed net count target opt w counts).0 refl

  cipher_probes-closed :
      (tls : TlsInfo) (w : World) → count (cipher_probes x v net target opt tls w).1 ≡ count w
  cipher_probes-closed tls w =
      either_count (not opt.skip_ciphers) _ _ (count w)
        (probes-closed net count target opt w counts).1 refl

  inspected-closed :
      (conn : Conn) (state : ConnectionState) (r : Result) (infos : Outcome (List CertificateInfo))
      (w : World) (n : ℕ)
      → count w ≡ suc n
      → count (inspected x v net target opt conn state r infos w).1 ≡ n
  inspected-closed conn state r (ok infos) w n h =
      let tls = negotiated x v net r.tls state in
      let versions = version_probes x v net target opt tls w in
      let ciphers = cipher_probes x v net target opt tls versions.1 in
      counts.close_closes conn ciphers.1 n
        (cipher_probes-closed tls versions.1 ∙ (version_probes-closed tls w ∙ h))
  inspected-closed conn state r (err e) w n h = counts.close_closes conn w n h
  inspected-closed conn state r panic w n h = counts.close_closes conn w n h

  handshaken-closed :
      (r : Result) (o : (Text ⊎ (Conn × ConnectionState)) × World) (n : ℕ)
      → count o.1 ≡ opened o.0 n
      → count (handshaken x v net target opt r o).1 ≡ n
  handshaken-closed r (inl e, w) n h = h
  handshaken-closed r (inr (conn, state), w) n h = inspected-closed conn state r _ w n h

-- `checkTLS` with all its probes leaves as many connections open as it found, on every path.
pub check_tls-closed :
    {World Conn Pool : Type 0} (x : X509) (v : Verifier Pool) (net : Network World Conn)
    (count : World → ℕ) (target : Target) (opt : Options) (min_version max_version : ℕ) (r : Result)
    (w : World)
    → Counts net count
    → count (check_tls x v net target opt min_version max_version r w).1 ≡ count w
unfolding check_tls
check_tls-closed x v net count target opt min_version max_version r w counts =
    handshaken-closed x v net count counts target opt (started x v net target opt r) _ (count w)
      (connect_tls-opened net count counts target opt min_version max_version w)
