-- ===== src/Dns/Check/Frame.antt =====
-- What `checkDNS` changes, and what it leaves.
use ssl_certificate_verifier.Base.{
  ◌≡◌, refl, Bool, true, false, inl, inr, List, [], ◌∷◌, ◌++◌, append-nil, if◌then◌else◌, Text,
  codes, ◌⊎◌, Outcome, ok, err, panic, Returns,
}
use ssl_certificate_verifier.Strings.{trim, trim_space}
use ssl_certificate_verifier.Types.{Options, Target, Result, CaaRecord}
use ssl_certificate_verifier.Dns.Lookup.{Datagrams}
use ssl_certificate_verifier.Dns.Lookup.Nearest.{Searched, lookup_caa_hierarchy-Returns}
use ssl_certificate_verifier.Dns.Check.{
  Resolver, attempt, dns_timeout, warning, set_cname, set_a, set_aaaa, set_caa, check_dns,
}

-- At most one warning more.
abbrev pub IsWarned : List Text → List Text → Type 0
IsWarned before after = (after ≡ before) ⊎ ((s : Text) × (after ≡ before ++ s ∷ []))

-- The state behind the lookups of the CNAME and of both kinds of addresses.
abbrev pub addresses_done : {World : Type 0} → Resolver World → Target → Options → World → World
addresses_done res target opt w =
    let started = res.with_timeout (dns_timeout opt) w in
    let cname = res.lookup_cname target.host started in
    let a = res.lookup_ip (codes "ip4") target.host cname.1 in
    (res.lookup_ip (codes "ip6") target.host a.1).1

-- The lookups of the target are marked as attempted; those of an address leave the CAA records, and
-- the records of a name are those of the search that starts behind the other lookups; the rest of
-- the report is as it was.
pub record IsLookedUp {World Conn : Type 0} (res : Resolver World) (net : Datagrams World Conn)
    (target : Target) (opt : Options) (w : World) (before after : Result) : Type 0 where
  pub attempted_is : after.dns.attempted ≡ true
  pub hostname_is : after.dns.hostname ≡ target.host
  pub caa_is :
      (target.is_ip ≡ true) × (after.dns.caa ≡ before.dns.caa)
      ⊎ (target.is_ip ≡ false)
        × ((w1 : World) × Searched net
              (trim (trim_space target.host) (codes "."))
              (addresses_done res target opt w)
              (after.dns.caa_host, after.dns.caa)
              w1)
  pub warnings_are : IsWarned before.warnings after.warnings
  pub errors_are : after.errors ≡ before.errors
  pub tls_is : after.tls ≡ before.tls
  pub http_is : after.http ≡ before.http
  pub certificates_are : after.certificates ≡ before.certificates
  pub verification_is : after.verification ≡ before.verification
  pub protocol_is : after.protocol ≡ before.protocol
  pub input_is : after.input ≡ before.input
  pub target_is : after.target ≡ before.target
  pub checked_at_is : after.checked_at ≡ before.checked_at

warning-IsWarned :
    (before : List Text) (prefix : Text) (o : Text ⊎ List Text)
    → IsWarned before (before ++ warning prefix o)
warning-IsWarned before prefix (inl e) = inr (_, refl)
warning-IsWarned before prefix (inr texts) = inl (append-nil before)

set_caa-IsLookedUp :
    {World Conn : Type 0} (res : Resolver World) (net : Datagrams World Conn) (opt : Options)
    (w w1 : World) (target : Target) (before : Result) (c : Text ⊎ Text) (a q : Text ⊎ List Text)
    (caa : Outcome (Text × List CaaRecord))
    → target.is_ip ≡ false
    → Returns
        (λ r.
          Searched net
            (trim (trim_space target.host) (codes "."))
            (addresses_done res target opt w)
            r
            w1)
        caa
    → Returns
        (IsLookedUp res net target opt w before)
        (set_caa (set_aaaa q (set_a a (set_cname c (attempt target before)))) caa)
set_caa-IsLookedUp res net opt w w1 target before c a q (ok (host, records)) name h = record {
  attempted_is = refl;
  hostname_is = refl;
  caa_is = inr (name, (w1, h));
  warnings_are = warning-IsWarned before.warnings _ a;
  errors_are = refl;
  tls_is = refl;
  http_is = refl;
  certificates_are = refl;
  verification_is = refl;
  protocol_is = refl;
  input_is = refl;
  target_is = refl;
  checked_at_is = refl;
}
set_caa-IsLookedUp res net opt w w1 target before c a q (err e) name h = h
set_caa-IsLookedUp res net opt w w1 target before c a q panic name h = h

either :
    {World : Type 0} (P : Result → Type 0) (b : Bool) (x y : Outcome Result × World)
    → (b ≡ true → Returns P x.0)
    → (b ≡ false → Returns P y.0)
    → Returns P (if b then x else y).0
either P true x y h k = h refl
either P false x y h k = k refl

-- `checkDNS` returns, whatever the resolver and the network give. It marks the lookups as attempted
-- for the host of the target and adds at most one warning. For an address it leaves the CAA
-- records; for a name they are those that the search from the name upwards finds, in the state
-- behind the lookups of the CNAME and the addresses. The errors, the certificates, and what is
-- known of TLS and HTTP stay.
pub check_dns-IsLookedUp :
    {World Conn : Type 0} (res : Resolver World) (net : Datagrams World Conn) (target : Target)
    (opt : Options) (before : Result) (w : World)
    → Returns (IsLookedUp res net target opt w before) (check_dns res net target opt before w).0
unfolding check_dns
check_dns-IsLookedUp res net target opt before w =
    let started = res.with_timeout (dns_timeout opt) w in
    let cname = res.lookup_cname target.host started in
    let a = res.lookup_ip (codes "ip4") target.host cname.1 in
    let aaaa = res.lookup_ip (codes "ip6") target.host a.1 in
    either (IsLookedUp res net target opt w before) target.is_ip _ _
      (λ address. record {
        attempted_is = refl;
        hostname_is = refl;
        caa_is = inl (address, refl);
        warnings_are = warning-IsWarned before.warnings _ _;
        errors_are = refl;
        tls_is = refl;
        http_is = refl;
        certificates_are = refl;
        verification_is = refl;
        protocol_is = refl;
        input_is = refl;
        target_is = refl;
        checked_at_is = refl;
      })
      (λ name.
        set_caa-IsLookedUp res net opt w _ target before cname.0 a.0 aaaa.0 _ name
          (lookup_caa_hierarchy-Returns net target.host _))
