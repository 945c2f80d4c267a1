-- ===== src/Dns/Response/Slices.antt =====
-- Reads behind a prefix of the message.
use ssl_certificate_verifier.Base.{
  ℕ, ◌+◌, ◌-◌, ◌≤◌, ◌≡◌, ◌++◌, arith, Text, length, length-append, get_elem?-shift, drop-shift,
  take, drop, ok, byte_at, slice,
}
use ssl_certificate_verifier.Dns.Response.{uint16_at}

byte_at-shift : (pre s : Text) (k : ℕ) → byte_at (pre ++ s) (length pre + k) ≡ byte_at s k
unfolding byte_at
byte_at-shift pre s k = rw get_elem?-shift

pub uint16_at-shift : (pre s : Text) (k : ℕ) → uint16_at (pre ++ s) (length pre + k) ≡ uint16_at s k
unfolding uint16_at
uint16_at-shift pre s k =
    let e : length pre + k + 1 ≡ length pre + (k + 1) = omega arith in
    rw (e, byte_at-shift pre s k, byte_at-shift pre s (k + 1))

pub slice-shift :
    (pre s : Text) (a b : ℕ)
    → a ≤ b
    → b ≤ length s
    → slice (pre ++ s) (length pre + a) (length pre + b) ≡ ok (take (b - a) (drop a s))
unfolding slice
slice-shift pre s a b h k =
    let e : (length pre + b) - (length pre + a) ≡ b - a = omega arith in
    rw (drop-shift, e) (ground (arith, length-append pre s))
