-- ===== src/Dns/Check.antt =====
-- internal/checker/dns.go: `checkDNS`. The resolver is a parameter; the context with its deadline
-- belongs to the state of the world.
pub mod Frame
use ssl_certificate_verifier.Base.{
  Bool, true, false, List, [], ◌∷◌, ◌++◌, if◌then◌else◌, Text, codes, Option, some, ◌⊎◌, inl, inr,
  Outcome, ok, err, panic,
}
use ssl_certificate_verifier.Base.Int.{pos, ltb_ℤ}
use ssl_certificate_verifier.Types.{Options, Target, Result, DnsInfo, CaaRecord, Duration}
use ssl_certificate_verifier.Tls.Names.{normalize_timeout}
use ssl_certificate_verifier.Tls.ShortError.{short_error}
use ssl_certificate_verifier.Dns.Lookup.{Datagrams, lookup_caa_hierarchy}

-- The lookups of `net.Resolver`, an address by the text of its `String()`; `with_timeout` and
-- `cancel` are the context's.
pub record Resolver (World : Type 0) : Type 0 where
  pub with_timeout : Duration → World → World
  pub cancel : World → World
  pub lookup_addr : Text → World → (Text ⊎ List Text) × World
  pub lookup_cname : Text → World → (Text ⊎ Text) × World
  pub lookup_ip : Text → Text → World → (Text ⊎ List Text) × World

abbrev dns_limit : Duration
dns_limit = pos 5000000000

abbrev dns_timeout : Options → Duration
dns_timeout opt =
    let timeout = normalize_timeout opt.timeout in
    if ltb_ℤ dns_limit timeout then dns_limit else timeout

-- `DNS.Attempted` and `DNS.Hostname`.
abbrev attempt : Target → Result → Result
attempt target r = record r { dns = record r.dns { attempted = true; hostname = target.host } }

-- What a lookup adds to a list of results, and to the warnings.
abbrev found : Text ⊎ List Text → List Text
found (inl e) = []
found (inr texts) = texts

abbrev warning : Text → Text ⊎ List Text → List Text
warning prefix (inl e) = (prefix ++ short_error (some e)) ∷ []
warning prefix (inr texts) = []

abbrev ptr_error : DnsInfo → Text ⊎ List Text → Text
ptr_error dns (inl e) = short_error (some e)
ptr_error dns (inr texts) = dns.error

abbrev ptr_names : DnsInfo → Text ⊎ List Text → List Text
ptr_names dns (inl e) = dns.ptr
ptr_names dns (inr texts) = texts

abbrev set_ptr : Text ⊎ List Text → Result → Result
set_ptr o r = record r {
  dns = record r.dns { error = ptr_error r.dns o; ptr = ptr_names r.dns o };
  warnings = r.warnings ++ warning (codes "dns: reverse lookup failed: ") o;
}

abbrev cname_or : Text → Text ⊎ Text → Text
cname_or old (inl e) = old
cname_or old (inr cname) = cname

abbrev set_cname : Text ⊎ Text → Result → Result
set_cname o r = record r { dns = record r.dns { cname = cname_or r.dns.cname o } }

abbrev set_a : Text ⊎ List Text → Result → Result
set_a o r = record r {
  dns = record r.dns { a = r.dns.a ++ found o };
  warnings = r.warnings ++ warning (codes "dns: A lookup failed: ") o;
}

abbrev set_aaaa : Text ⊎ List Text → Result → Result
set_aaaa o r = record r { dns = record r.dns { aaaa = r.dns.aaaa ++ found o } }

abbrev set_caa : Result → Outcome (Text × List CaaRecord) → Outcome Result
set_caa r (ok (host, records)) =
    ok (record r { dns = record r.dns { caa_host = host; caa = records } })
set_caa r (err e) = err e
set_caa r panic = panic

module _ {World Conn : Type 0} (res : Resolver World) (net : Datagrams World Conn) where
  abbrev check_address : Target → Result → World → Outcome Result × World
  check_address target r w =
      let ptr = res.lookup_addr target.host w in (ok (set_ptr ptr.0 r), res.cancel ptr.1)

  abbrev check_name : Target → Result → World → Outcome Result × World
  check_name target r w =
      let cname = res.lookup_cname target.host w in
      let a = res.lookup_ip (codes "ip4") target.host cname.1 in
      let aaaa = res.lookup_ip (codes "ip6") target.host a.1 in
      let caa = lookup_caa_hierarchy net target.host aaaa.1 in
      (set_caa (set_aaaa aaaa.0 (set_a a.0 (set_cname cname.0 r))) caa.0, res.cancel caa.1)

  pub check_dns : Target → Options → Result → World → Outcome Result × World
  check_dns target opt r w =
      let started = res.with_timeout (dns_timeout opt) w in
      if target.is_ip
      then check_address target (attempt target r) started
      else check_name target (attempt target r) started
