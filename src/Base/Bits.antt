-- ===== src/Base/Bits.antt =====
-- Laws of the bit operations at variables.
use Prim.Native.Nat.{
  ℕ, zero, suc, ◌+◌, ◌*◌, ◌/◌, ◌^◌, ◌≤◌, ◌<◌, max, bit_and, bit_or, digits, bit_or-bitwise,
}
use mathlib.Core.Path.{◌≡◌, refl}
use mathlib.Core.Bool.{Bool, true, false}
use native.Mathlib.Omega.{arith}
use native.Mathlib.Nat.{pow-suc}
use ssl_certificate_verifier.Base.Tests.{◌==◌, ==_iff, if◌then◌else◌}

-- A number with its k lowest digits clear, and a number of k digits: the digits do not overlap.
digits-apart :
    (n k hi x lo : ℕ) → x ≤ n → x ≡ hi * 2 ^ k → lo < 2 ^ k → digits (λ d. d) max n x lo ≡ x + lo
digits-apart zero k hi zero lo le e lt = omega arith
digits-apart zero k hi (suc x) lo le e lt = absurd (omega arith)
digits-apart (suc n) k hi zero lo le e lt = omega arith
digits-apart (suc n) zero hi (suc x) (suc lo) le e lt = absurd (omega arith)
digits-apart (suc n) zero hi (suc x) zero le e lt =
    omega
      (arith, digits-apart n 0 (suc x / 2) (suc x / 2) 0 (omega arith) (omega arith) (omega arith))
digits-apart (suc n) (suc k) hi (suc x) lo le e lt =
    let doubled : suc x ≡ hi * (2 ^ k * 2) = rw (pow-suc 2 k) at e in
    let below : lo < 2 ^ k * 2 = rw (pow-suc 2 k) at lt in
    omega (
      arith,
      doubled,
      digits-apart n k hi (suc x / 2) (lo / 2) (omega arith) (omega (arith, doubled))
          (omega (arith, below)),
    )

-- `int(hi)<<8 | int(lo)` for a byte `lo`.
pub bit_or-byte : (hi lo : ℕ) → lo < 256 → bit_or (hi * 256) lo ≡ hi * 256 + lo
bit_or-byte hi lo h =
    rw (bit_or-bitwise (hi * 256) lo)
      (digits-apart (hi * 256) 8 hi (hi * 256) lo (omega arith) refl h)

-- Whether a test fails somewhere below a bound.
abbrev fails_below : (ℕ → Bool) → ℕ → Bool
fails_below test zero = false
fails_below test (suc bound) = if test bound then fails_below test bound else true

fails_below_lem :
    (test : ℕ → Bool) (x bound : ℕ) → x < bound → fails_below test bound ≡ false → test x ≡ true
fails_below_lem test x zero lt passed = absurd (omega arith)
fails_below_lem test x (suc bound) lt passed = ground (arith, fails_below_lem test x bound, passed)

abbrev top_is : ℕ → Bool
top_is x = bit_and x 0xc0 == (x / 64) * 64

-- The two top bits of a length byte decide between a label, a pointer and neither.
pub bit_and-top : (x : ℕ) → x < 256 → bit_and x 0xc0 ≡ (x / 64) * 64
bit_and-top x h = (==_iff _ _).0 (fails_below_lem top_is x 256 h refl)
