-- ===== src/Kubernetes/Run/Report.antt =====
-- What `CheckKubernetes` reports.
use ssl_certificate_verifier.Base.{
  subst, sym, ap, ◌∙◌, ◌≡◌, ◌≢◌, refl, Bool, true, false, not, ◌&&◌, List, [], ◌∷◌, ◌++◌,
  if◌then◌else◌, Text, codes, is_empty, Option, none, some, ◌⊎◌, inl, inr, Outcome, ok, err, panic,
  All, Returns, Safely,
}
use ssl_certificate_verifier.Types.{Options, Result, Bytes}
use ssl_certificate_verifier.Tls.Names.{normalize_timeout}
use ssl_certificate_verifier.Tls.ShortError.{short_error}
use ssl_certificate_verifier.Check.Run.{Environment, plan, check}
use ssl_certificate_verifier.Check.Run.Report.{IsOutcome, check-IsOutcome}
use ssl_certificate_verifier.Kubernetes.{
  Files, KubernetesOptions, KubernetesReport, KubernetesCertificate, first_non_empty,
  first_non_empty_slice, resolve_kubernetes_preset,
}
use ssl_certificate_verifier.Kubernetes.Config.{KubeconfigInfo, no_info, parse_kubeconfig}
use ssl_certificate_verifier.Kubernetes.Config.Safe.{parse_kubeconfig-Safely}
use ssl_certificate_verifier.Kubernetes.Scan.{Decoders, Found}
use ssl_certificate_verifier.Kubernetes.Scan.Blocks.{Shrinks}
use ssl_certificate_verifier.Kubernetes.Scan.Source.{
  IsFrom, AllFrom, scan_kubernetes_cert_dirs-AllFrom,
}
use ssl_certificate_verifier.Kubernetes.Run.{
  initial_report, warn, configured, live_options, api_checked, no_server_warning, scanned,
  config_step, live_step, scan_step, after_live, after_config, check_kubernetes,
}

module _ {World Conn Socket Pool : Type 0} (env : Environment World Conn Socket Pool)
    (files : Files) (dec : Decoders) (decode_base64 : Text → Text ⊎ Bytes)
    (opt : KubernetesOptions) where
  -- The options of the check of the API server: those for a check, with the timeout and the choice
  -- of PEM for the cluster, and with the authority of the kubeconfig.
  abbrev api_options : KubeconfigInfo → Options
  api_options info = record {
    port = opt.check_options.port;
    server_name = opt.check_options.server_name;
    verify_name = opt.check_options.verify_name;
    timeout = normalize_timeout opt.timeout;
    tls_min = opt.check_options.tls_min;
    tls_max = opt.check_options.tls_max;
    ca_file = info.ca_file;
    ca_bundle_pem = info.ca_data_pem;
    no_hostname = opt.check_options.no_hostname;
    include_pem = opt.include_pem;
    skip_tls_probe = opt.check_options.skip_tls_probe;
    skip_dns = opt.check_options.skip_dns;
    skip_http = opt.check_options.skip_http;
    skip_ciphers = opt.check_options.skip_ciphers;
    force_tls = opt.check_options.force_tls;
  }

  -- The state behind the check of the API server, in which the certificate files are scanned.
  abbrev pub api_done : KubeconfigInfo → World → World
  api_done info w =
      if not opt.skip_live && not (is_empty info.server)
      then (check env info.server (api_options info) w).1
      else w

  -- The check of the API server: there is none, `Check` refuses it, or it has a report.
  pub data IsLive (info : KubeconfigInfo) (w : World)
      : Text → Option Result → List Text → Type 0 where
    not_checked :
        (server : Text) → (opt.skip_live ≡ true) ⊎ (server ≡ []) → IsLive info w server none []
    refused :
        (server e : Text)
        → plan env.syntax server (api_options info) ≡ err e
        → IsLive info w server none ((codes "api-server: " ++ short_error (some e)) ∷ [])
    reported :
        (server : Text) (result : Result)
        → (check env server (api_options info) w).0 ≡ ok result
        → IsLive info w server (some result) []

  -- What is known of the API server: no kubeconfig, one that cannot be read, or its fields.
  abbrev pub IsKnown : Text → KubeconfigInfo → Type 0
  IsKnown kubeconfig info =
      (kubeconfig ≡ []) × (info ≡ no_info)
      ⊎ ((e : Text) × (parse_kubeconfig files decode_base64 kubeconfig ≡ err e) × (info ≡ no_info))
      ⊎ (parse_kubeconfig files decode_base64 kubeconfig ≡ ok info)

  -- The head of the report, which every step keeps.
  pub record IsHeaded (info : KubeconfigInfo) (r : KubernetesReport) : Type 0 where
    pub distro_is : r.distro ≡ (resolve_kubernetes_preset files opt).0.distro
    pub kubeconfig_is :
        r.kubeconfig
        ≡ first_non_empty opt.kubeconfig (resolve_kubernetes_preset files opt).0.kubeconfig
    pub cert_dirs_are :
        r.cert_dirs
        ≡ first_non_empty_slice opt.cert_dirs (resolve_kubernetes_preset files opt).0.cert_dirs
    pub known_is : IsKnown r.kubeconfig info
    pub api_server_is : r.api_server ≡ info.server
    pub api_server_ca_is : r.api_server_ca ≡ info.ca_file

  -- The whole report.
  pub record IsKubernetesReport (w : World) (r : KubernetesReport) : Type 0 where
    pub info : KubeconfigInfo
    pub headed : IsHeaded info r
    pub live : IsLive info w r.api_server r.api_server_check r.errors
    pub certificates_are :
        (opt.skip_cert_scan ≡ true) × (r.certificates ≡ [])
        ⊎ All
            (IsFrom files dec env.x509 opt.include_pem
              (env.network.now (api_done info w))
              r.cert_dirs)
            r.certificates

  -- The report behind the kubeconfig.
  abbrev IsConfigured : KubeconfigInfo × KubernetesReport → Type 0
  IsConfigured c =
      IsHeaded c.0 c.1 × (c.1.api_server_check ≡ none) × (c.1.certificates ≡ []) × (c.1.errors ≡ [])

  -- The report behind the check of the API server.
  abbrev IsLived : KubeconfigInfo → World → KubernetesReport → Type 0
  IsLived info w r =
      IsHeaded info r
      × IsLive info w r.api_server r.api_server_check r.errors
      × (r.certificates ≡ [])

  abbrev initial : KubernetesReport
  initial = initial_report opt (resolve_kubernetes_preset files opt)

  configured-IsConfigured :
      (o : Outcome KubeconfigInfo)
      → parse_kubeconfig files decode_base64 initial.kubeconfig ≡ o
      → Safely (λ info. Unit {0}) o
      → Returns IsConfigured (configured initial o)
  configured-IsConfigured (ok info) e safe = (
    record {
      distro_is = refl;
      kubeconfig_is = refl;
      cert_dirs_are = refl;
      known_is = inr (inr e);
      api_server_is = refl;
      api_server_ca_is = refl;
    },
    refl,
    refl,
    refl,
  )
  configured-IsConfigured (err message) e safe = (
    record {
      distro_is = refl;
      kubeconfig_is = refl;
      cert_dirs_are = refl;
      known_is = inr (inl (message, e, refl));
      api_server_is = refl;
      api_server_ca_is = refl;
    },
    refl,
    refl,
    refl,
  )
  configured-IsConfigured panic e safe = safe

  empty-nil : (s : Text) → is_empty s ≡ true → s ≡ []
  empty-nil [] h = refl
  empty-nil (c ∷ s) h = cc

  config_step-IsConfigured :
      Returns IsConfigured (config_step env files dec decode_base64 opt initial)
  config_step-IsConfigured = at (is_empty initial.kubeconfig) refl
    where
      at :
          (b : Bool)
          → is_empty initial.kubeconfig ≡ b
          → Returns IsConfigured (
              if not b
              then configured initial (parse_kubeconfig files decode_base64 initial.kubeconfig)
              else ok (no_info, initial))
      at true e = (
        record {
          distro_is = refl;
          kubeconfig_is = refl;
          cert_dirs_are = refl;
          known_is = inl (empty-nil initial.kubeconfig e, refl);
          api_server_is = refl;
          api_server_ca_is = refl;
        },
        refl,
        refl,
        refl,
      )
      at false e =
          configured-IsConfigured _ refl
            (parse_kubeconfig-Safely files decode_base64 initial.kubeconfig)

  keep_head :
      (info : KubeconfigInfo) (r : KubernetesReport) (checked : Option Result)
      (certs : List KubernetesCertificate) (warnings errors : List Text)
      → IsHeaded info r
      → IsHeaded info (record r {
        api_server_check = checked;
        certificates = certs;
        warnings = warnings;
        errors = errors;
      })
  keep_head info r checked certs warnings errors h = record {
    distro_is = h.distro_is;
    kubeconfig_is = h.kubeconfig_is;
    cert_dirs_are = h.cert_dirs_are;
    known_is = h.known_is;
    api_server_is = h.api_server_is;
    api_server_ca_is = h.api_server_ca_is;
  }

  is_refused :
      {server e : Text} {options : Options} {w after : World}
      → IsOutcome env server options w (err e, after)
      → plan env.syntax server options ≡ err e
  is_refused (inl (message, planned, o)) = cc
  is_refused (inr (p, planned, is_plan, h)) = absurd h

  no_panic :
      {P : Type 0} {server : Text} {options : Options} {w after : World}
      → IsOutcome env server options w (panic, after)
      → P
  no_panic (inl (message, planned, o)) = cc
  no_panic (inr (p, planned, is_plan, h)) = absurd h

  either :
      (P : KubernetesReport → Type 0) (b : Bool) (x y : Outcome KubernetesReport × World)
      → (b ≡ true → Returns P x.0)
      → (b ≡ false → Returns P y.0)
      → Returns P (if b then x else y).0
  either P true x y h k = h refl
  either P false x y h k = k refl

  skipped : (b : Bool) (s : Text) → not b && not (is_empty s) ≡ false → (b ≡ true) ⊎ (s ≡ [])
  skipped true s h = inl refl
  skipped false [] h = inr refl
  skipped false (c ∷ s) h = cc

  -- A check of the API server, by what `Check` does.
  api_checked-IsLived :
      (info : KubeconfigInfo) (w : World) (r : KubernetesReport) (o : Outcome Result × World)
      → IsConfigured (info, r)
      → (check env r.api_server (live_options opt info) w).0 ≡ o.0
      → IsOutcome env r.api_server (live_options opt info) w o
      → Returns (IsLived info w) (api_checked r o.0)
  api_checked-IsLived info w r (ok result, after) (headed, none_yet, no_certs, no_errors) e
        outcome =
      (
        keep_head info r (some result) r.certificates r.warnings r.errors headed,
        rw no_errors (reported r.api_server result e),
        no_certs,
      )
  api_checked-IsLived info w r (err message, after) (headed, none_yet, no_certs, no_errors) e
        outcome =
      (
        keep_head info r r.api_server_check r.certificates r.warnings _ headed,
        rw (none_yet, no_errors) (refused r.api_server message (is_refused outcome)),
        no_certs,
      )
  api_checked-IsLived info w r (panic, after) configured_r e outcome = no_panic outcome

  live_step-IsLived :
      (info : KubeconfigInfo) (w : World) (r : KubernetesReport)
      → ((text : Text) → env.syntax.parse_url text ≢ panic)
      → IsConfigured (info, r)
      → Returns (IsLived info w) (live_step env files dec decode_base64 opt info r w).0
  live_step-IsLived info w r returns (headed, none_yet, no_certs, no_errors) =
      either (IsLived info w) (not opt.skip_live && not (is_empty r.api_server)) _ _
        (λ go.
          api_checked-IsLived info w r _ (headed, none_yet, no_certs, no_errors) refl
            (check-IsOutcome env r.api_server (live_options opt info) w (returns _)))
        (λ stay. (
          headed,
          rw (none_yet, no_errors)
              (not_checked r.api_server (skipped opt.skip_live r.api_server stay)),
          no_certs,
        ))

  no_server_warning-IsLived :
      (info : KubeconfigInfo) (w : World) (r : KubernetesReport)
      → IsLived info w r
      → IsLived info w (no_server_warning opt.skip_live r)
  no_server_warning-IsLived info w r (headed, live, no_certs) =
      at (not opt.skip_live && is_empty r.api_server)
    where
      at :
          (b : Bool)
          → IsLived info w
              (if b then warn r (codes "api-server: no server field found in kubeconfig") else r)
      at true =
          (keep_head info r r.api_server_check r.certificates _ r.errors headed, live, no_certs)
      at false = (headed, live, no_certs)

  scanned-IsReport :
      (info : KubeconfigInfo) (w : World) (r : KubernetesReport) (o : Outcome Found)
      → IsLived info w r
      → Returns
          (AllFrom files dec env.x509 opt.include_pem
            (env.network.now (api_done info w))
            r.cert_dirs)
          o
      → Returns (IsKubernetesReport w) (scanned r o)
  scanned-IsReport info w r (ok (certs, warnings)) (headed, live, no_certs) from = record {
    info = info;
    headed = keep_head info r r.api_server_check certs _ r.errors headed;
    live = live;
    certificates_are = inr from;
  }
  scanned-IsReport info w r (err e) lived from = from
  scanned-IsReport info w r panic lived from = from

  scan_step-IsReport :
      (info : KubeconfigInfo) (w : World) (r : KubernetesReport)
      → Shrinks dec
      → IsLived info w r
      → Returns
          (IsKubernetesReport w)
          (scan_step env files dec decode_base64 opt r (api_done info w)).0
  scan_step-IsReport info w r shrinks (headed, live, no_certs) =
      either_skipped opt.skip_cert_scan _ _
        (λ skip. record {
          info = info;
          headed = headed;
          live = live;
          certificates_are = inl (skip, no_certs);
        })
        (scanned-IsReport info w r _ (headed, live, no_certs)
          (scan_kubernetes_cert_dirs-AllFrom files dec env.x509 opt.include_pem
            (env.network.now (api_done info w)) r.cert_dirs shrinks))
    where
      either_skipped :
          (b : Bool) (x y : Outcome KubernetesReport × World)
          → (b ≡ true → Returns (IsKubernetesReport w) y.0)
          → Returns (IsKubernetesReport w) x.0
          → Returns (IsKubernetesReport w) (if not b then x else y).0
      either_skipped true x y h k = h refl
      either_skipped false x y h k = k

  after_live-IsReport :
      (info : KubeconfigInfo) (w : World) (o : Outcome KubernetesReport × World)
      → Shrinks dec
      → o.1 ≡ api_done info w
      → Returns (IsLived info w) o.0
      → Returns (IsKubernetesReport w) (after_live env files dec decode_base64 opt o).0
  after_live-IsReport info w (ok r, after) shrinks e h =
      let warned = no_server_warning opt.skip_live r in
      subst
        (λ v. Returns (IsKubernetesReport w) (scan_step env files dec decode_base64 opt warned v).0)
        (sym e) (scan_step-IsReport info w warned shrinks (no_server_warning-IsLived info w r h))
  after_live-IsReport info w (err message, after) shrinks e h = h
  after_live-IsReport info w (panic, after) shrinks e h = h

  live_step-done :
      (info : KubeconfigInfo) (w : World) (r : KubernetesReport)
      → r.api_server ≡ info.server
      → (live_step env files dec decode_base64 opt info r w).1 ≡ api_done info w
  live_step-done info w r e =
      at (not opt.skip_live && not (is_empty r.api_server)) _ _
      ∙ ap
          (λ s.
            if not opt.skip_live && not (is_empty s)
            then (check env s (api_options info) w).1
            else w)
          e
    where
      at :
          (b : Bool) (x y : Outcome KubernetesReport × World)
          → (if b then x else y).1 ≡ (if b then x.1 else y.1)
      at true x y = refl
      at false x y = refl

  after_config-IsReport :
      (w : World) (o : Outcome (KubeconfigInfo × KubernetesReport))
      → Shrinks dec
      → ((text : Text) → env.syntax.parse_url text ≢ panic)
      → Returns IsConfigured o
      → Returns (IsKubernetesReport w) (after_config env files dec decode_base64 opt o w).0
  after_config-IsReport w (ok (info, r)) shrinks returns h =
      after_live-IsReport info w _ shrinks (live_step-done info w r h.0.api_server_is)
        (live_step-IsLived info w r returns h)
  after_config-IsReport w (err e) shrinks returns h = h
  after_config-IsReport w panic shrinks returns h = h

-- `CheckKubernetes` always returns a report, if decoding a block of PEM shortens the bytes and the
-- URL parser does not panic. The paths are those of the options, or else of the preset; the server
-- and its authority are those of the kubeconfig, and empty if it cannot be read. The API server is
-- checked by `Check` with that authority, the timeout and the choice of PEM for the cluster, and
-- else the options for a check; a target that `Check` refuses is the one error of the report. The
-- certificates are reports, at the time behind that check, on those of certificate files in the
-- directories.
pub check_kubernetes-IsKubernetesReport :
    {World Conn Socket Pool : Type 0} (env : Environment World Conn Socket Pool) (files : Files)
    (dec : Decoders) (decode_base64 : Text → Text ⊎ Bytes) (opt : KubernetesOptions) (w : World)
    → Shrinks dec
    → ((text : Text) → env.syntax.parse_url text ≢ panic)
    → Returns
        (IsKubernetesReport env files dec decode_base64 opt w)
        (check_kubernetes env files dec decode_base64 opt w).0
unfolding check_kubernetes
check_kubernetes-IsKubernetesReport env files dec decode_base64 opt w shrinks returns =
    after_config-IsReport env files dec decode_base64 opt w _ shrinks returns
      (config_step-IsConfigured env files dec decode_base64 opt)
