-- ===== src/Target/RoundTrip.antt =====
-- The address of a target is itself a target, with the same host and port.
use ssl_certificate_verifier.Base.{
  ℕ, ◌≤◌, ◌≡◌, ◌≢◌, refl, arith, false, [], ◌∷◌, ◌==◌, Text, codes, any, is_empty, All, All-mono,
  ok, some,
}
use ssl_certificate_verifier.Base.Int.{pos, ltb_ℤ}
use ssl_certificate_verifier.Strings.{
  is_space, trim, trim_space, trim_both-none, contains, has_prefix, Lacks, itoa, itoa_ℤ,
  join_host_port, split_host_port,
}
use ssl_certificate_verifier.Strings.HostPort.RoundTrip.{
  split_host_port-join, join_host_port-All, join_host_port-ne-nil,
}
use ssl_certificate_verifier.Types.{Options}
use ssl_certificate_verifier.Target.Port.{parse_port-itoa, IsDigit, itoa-IsDigit}
use ssl_certificate_verifier.Target.{
  Syntax, split_host_port_loose, split_forms, parse_bare_target, finish_target, parse_target,
}

-- A byte of a host name or of an IP address.
abbrev IsHostByte : ℕ → Type 0
IsHostByte c =
    ((c == b'[') ≡ false) × ((c == b']') ≡ false) × ((c == b'/') ≡ false) × (is_space c ≡ false)

-- A byte of an address: those, the brackets and the colon.
abbrev IsAddressByte : ℕ → Type 0
IsAddressByte c = ((c == b'/') ≡ false) × (is_space c ≡ false)

digit-IsHostByte : (c : ℕ) → IsDigit c → IsHostByte c
digit-IsHostByte c d = ground arith

has_prefix-Lacks : (s : Text) → Lacks b'/' s → has_prefix s (codes "://") ≡ false
unfolding has_prefix codes
has_prefix-Lacks [] h = refl
has_prefix-Lacks (c ∷ []) h = ground arith
has_prefix-Lacks (c ∷ d ∷ s) h = ground arith

contains-Lacks : (s : Text) → Lacks b'/' s → contains s (codes "://") ≡ false
unfolding contains
contains-Lacks [] h = has_prefix-Lacks [] tt
contains-Lacks (c ∷ s) h = rw (has_prefix-Lacks (c ∷ s) h, contains-Lacks s h.1)

trim_space-none : (s : Text) → All IsAddressByte s → trim_space s ≡ s
unfolding trim_space
trim_space-none s h = trim_both-none is_space s (All-mono _ _ s (λ c h. h.1) h)

trim-none : (s : Text) → All IsHostByte s → trim s (b'[' ∷ b']' ∷ []) ≡ s
unfolding trim any
trim-none s h = trim_both-none _ s (All-mono IsHostByte _ s (λ c b. ground arith) h)

is_empty_of_ne-nil : (s : Text) → s ≢ [] → is_empty s ≡ false
is_empty_of_ne-nil [] h = absurd (h refl)
is_empty_of_ne-nil (c ∷ s) h = refl

module _ (host : Text) (n : ℕ) (bytes : All IsHostByte host) where
  abbrev address : Text
  address = join_host_port host (itoa n)

  port_bytes : All IsHostByte (itoa n)
  port_bytes = All-mono IsDigit IsHostByte (itoa n) digit-IsHostByte (itoa-IsDigit n)

  address_bytes : All IsAddressByte address
  address_bytes =
      join_host_port-All IsAddressByte host (itoa n) (refl, refl) (refl, refl) (refl, refl)
        (All-mono IsHostByte IsAddressByte host (λ c b. (b.2, b.3)) bytes)
        (All-mono IsHostByte IsAddressByte (itoa n) (λ c b. (b.2, b.3)) port_bytes)

  address-ne-nil : is_empty address ≡ false
  address-ne-nil = join_host_port-ne-nil host (itoa n)

  split_address : host ≢ [] → split_host_port address ≡ some (host, itoa n)
  split_address ne =
      split_host_port-join host (itoa n) ne
        (
          All-mono IsHostByte _ host (λ c b. b.0) bytes,
          All-mono IsHostByte _ host (λ c b. b.1) bytes,
        )
        (
          All-mono IsHostByte _ (itoa n) (λ c b. b.0) port_bytes,
          All-mono IsHostByte _ (itoa n) (λ c b. b.1) port_bytes,
          All-mono IsDigit _ (itoa n) (λ c d. ground arith) (itoa-IsDigit n),
        )

  parse_bare_target-address :
      (syn : Syntax)
      → host ≢ []
      → 1 ≤ n
      → n ≤ 65535
      → parse_bare_target syn address
        ≡ ok (record {
          input = address;
          scheme = codes "https";
          host = host;
          port = pos n;
          path = codes "/";
          address = [];
          is_ip = false;
        })
  unfolding parse_bare_target split_host_port_loose split_forms
  parse_bare_target-address syn ne lo hi = rw (
    trim_space-none address address_bytes,
    address-ne-nil,
    split_address ne,
    parse_port-itoa n lo hi,
    trim-none host bytes,
  )

-- The address of a host and a port is accepted as a target, and gives that host, that port, and the
-- same address again: for a host of one byte at least with no bracket, slash or white space, a port
-- from 1 to 65535, and no port override.
pub parse_target-address :
    (syn : Syntax) (opt : Options) (host : Text) (n : ℕ)
    → host ≢ []
    → All IsHostByte host
    → 1 ≤ n
    → n ≤ 65535
    → ltb_ℤ (pos 0) opt.port ≡ false
    → parse_target syn (join_host_port host (itoa n)) opt
      ≡ ok (record {
        input = join_host_port host (itoa n);
        scheme = codes "https";
        host = host;
        port = pos n;
        path = codes "/";
        address = join_host_port host (itoa n);
        is_ip = syn.is_ip host;
      })
unfolding parse_target finish_target itoa_ℤ
parse_target-address syn opt host n ne bytes lo hi none_given =
    let s = address host n bytes in
    rw (
      trim_space-none s (address_bytes host n bytes),
      address-ne-nil host n bytes,
      contains-Lacks s (All-mono IsAddressByte _ s (λ c b. b.0) (address_bytes host n bytes)),
      parse_bare_target-address host n bytes syn ne lo hi,
      none_given,
      trim-none host bytes,
      is_empty_of_ne-nil host ne,
    )
