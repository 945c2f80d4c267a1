-- ===== src/Dns/Name/Bounds.antt =====
-- `skipDNSName` stays in the message.
use ssl_certificate_verifier.Base.{
  ℕ, zero, suc, ◌+◌, ◌-◌, ◌≤◌, ◌<◌, arith, Text, length, byte_at-lt, Safely, Bool-cases, leb, inl,
  inr,
}
use ssl_certificate_verifier.Dns.Name.{skip_labels, skip_dns_name}

-- `skip_labels` with enough rounds.
skip_labels-Safely :
    (rounds : ℕ) (msg : Text) (offset : ℕ)
    → length msg - offset < rounds
    → Safely (λ r. (offset < r) × (r ≤ length msg)) (skip_labels rounds msg offset)
unfolding skip_labels
skip_labels-Safely zero msg offset h = absurd (omega arith)
skip_labels-Safely (suc rounds) msg offset h = elim (Bool-cases (leb (length msg) offset)) [
  | inl past ↦ ground arith
  | inr inside ↦
      let (len, read) = byte_at-lt msg offset (ground arith) in
      ground (arith, skip_labels-Safely rounds msg (offset + 1 + len) (ground arith))
]

-- `skipDNSName` never reads outside the message, and where it succeeds the offset has grown and is
-- still in the message.
pub skip_dns_name-Safely :
    (msg : Text) (offset : ℕ)
    → Safely (λ r. (offset < r) × (r ≤ length msg)) (skip_dns_name msg offset)
unfolding skip_dns_name
skip_dns_name-Safely msg offset = skip_labels-Safely (length msg + 1) msg offset (omega arith)
