-- ===== src/Cert/Sct/Der.antt =====
-- The value of the extension of a certificate is a DER octet string around the list (RFC 6962,
-- section 3.3), and `countSCTList` reads its two first bytes as the length of the list.
use ssl_certificate_verifier.Base.{
  ℕ, ◌+◌, ◌/◌, ◌%◌, ◌≤◌, ◌<◌, ◌≡◌, refl, inl, inr, Bool-cases, arith, List, ◌∷◌, ltb, if◌then◌else◌,
  Text, length, ok, byte_at, Returns,
}
use ssl_certificate_verifier.Base.Bits.{bit_or-byte}
use ssl_certificate_verifier.Cert.Sct.{count_entries, count_sct_list}
use ssl_certificate_verifier.Cert.Sct.RoundTrip.{wire_entries, wire_sct_list}

-- The DER form of an octet string of 128 to 65535 bytes.
abbrev pub octet_string : Text → Text
octet_string body =
    let n = length body in
    if ltb n 256 then 4 ∷ 129 ∷ n ∷ body else 4 ∷ 130 ∷ (n / 256) ∷ (n % 256) ∷ body

one_byte :
    (n c : ℕ) (body : Text)
    → 128 ≤ n
    → c < 256
    → length body + 1 ≡ n
    → count_sct_list (4 ∷ 129 ∷ n ∷ c ∷ body) ≡ ok 0
unfolding count_sct_list count_entries byte_at
one_byte n c body h hc hn = ground (arith, bit_or-byte n c hc, bit_or-byte 4 129 (omega arith))

two_bytes :
    (n : ℕ) (body : Text)
    → 256 ≤ n
    → n < 65536
    → length body ≡ n
    → Returns (λ m. m ≤ 1) (count_sct_list (4 ∷ 130 ∷ (n / 256) ∷ (n % 256) ∷ body))
unfolding count_sct_list count_entries byte_at
two_bytes n body h k hn =
    ground (arith, bit_or-byte (n / 256) (n % 256) (omega arith), bit_or-byte 4 130 (omega arith))

-- Around any list with a wire form of 128 to 65535 bytes, the count is 0 or 1, however many
-- timestamps the list has.
pub count_sct_list-octet_string :
    (scts : List Text)
    → 128 ≤ length (wire_sct_list scts)
    → length (wire_sct_list scts) < 65536
    → Returns (λ n. n ≤ 1) (count_sct_list (octet_string (wire_sct_list scts)))
count_sct_list-octet_string scts h k =
    let body = wire_sct_list scts in
    let n = length body in
    let high = length (wire_entries scts) / 256 % 256 in
    elim (Bool-cases (ltb n 256)) [
      | inl short ↦
          let done : count_sct_list (octet_string body) ≡ ok 0 =
            rw short (one_byte n high _ h (omega arith) (omega arith)) in
          rw done (omega arith)
      | inr long ↦ rw long (two_bytes n body (ground arith) k refl)
    ]
