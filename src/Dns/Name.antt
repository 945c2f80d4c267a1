-- ===== src/Dns/Name.antt =====
-- internal/checker/dns.go: `encodeDNSName`, `skipDNSName` and `parentDomain`.
pub mod Bounds
pub mod Encode
use ssl_certificate_verifier.Base.{
  ℕ, zero, suc, ◌+◌, ◌%◌, Bool, true, false, not, ◌||◌, List, [], ◌∷◌, ◌++◌, bit_and, ltb, leb,
  ◌==◌, if◌then◌else◌, Text, codes, length, drop, is_empty, Outcome, ok, err, panic, ◌>>=◌, byte_at,
  Option, none, some,
}
use ssl_certificate_verifier.Strings.{trim, trim_space, split, quote, index_byte}

-- One round of the loop over the labels of a name: the label's length in one byte, then its bytes.
unfoldable pub encode_labels : List Text → Text → Outcome Text
encode_labels [] out = ok (out ++ 0 ∷ [])
encode_labels (part ∷ parts) out =
    let rest = encode_labels parts ((out ++ (length part % 256) ∷ []) ++ part) in
    if is_empty part || ltb 63 (length part)
    then err (codes "invalid DNS label " ++ quote part)
    else rest

unfoldable pub encode_dns_name : Text → Outcome Text
encode_dns_name host =
    let trimmed = trim (trim_space host) (codes ".") in
    if is_empty trimmed then err (codes "empty DNS name") else encode_labels (split trimmed b'.') []

-- The loop of `skipDNSName`. The first argument bounds its rounds.
unfoldable pub skip_labels : ℕ → Text → ℕ → Outcome ℕ
skip_labels zero msg offset = panic
skip_labels (suc rounds) msg offset =
    if leb (length msg) offset then err (codes "short DNS name") else do
      len ← byte_at msg offset
      let next = skip_labels rounds msg (offset + 1 + len)
      if bit_and len 0xc0 == 0xc0
          then (if leb (length msg) (offset + 1)
              then err (codes "short DNS compression pointer")
              else ok (offset + 2))
          else if not (bit_and len 0xc0 == 0)
          then err (codes "unsupported DNS label")
          else if len == 0
          then ok (offset + 1)
          else next

-- A round moves forward by a byte at least, so that one round for each byte is enough.
unfoldable pub skip_dns_name : Text → ℕ → Outcome ℕ
skip_dns_name msg offset = skip_labels (length msg + 1) msg offset

unfoldable pub parent_domain : Text → Text
parent_domain host = elim (index_byte host b'.') [
  | none ↦ []
  | some idx ↦ if leb (length host) (idx + 1) then [] else drop (idx + 1) host
]
