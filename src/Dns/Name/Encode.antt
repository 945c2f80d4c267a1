-- ===== src/Dns/Name/Encode.antt =====
-- What `encodeDNSName` writes, and that `skipDNSName` reads over it.
use ssl_certificate_verifier.Base.{
  ℕ, zero, suc, ◌+◌, ◌/◌, ◌%◌, ◌≤◌, ◌<◌, ◌≡◌, ◌≢◌, refl, ap, ◌∙◌, arith, ◌⊎◌, List, [], ◌∷◌, ◌++◌,
  append_assoc, Text, codes, length, length-append, All, ok, byte_at, byte_at-append,
}
use ssl_certificate_verifier.Base.Bits.{bit_and-top}
use ssl_certificate_verifier.Strings.{trim, trim_space, split, split-ne-nil, cons_head}
use ssl_certificate_verifier.Dns.Name.{encode_labels, encode_dns_name, skip_labels, skip_dns_name}

-- A label of a name in a query: one byte at least, and 63 at most.
abbrev pub IsLabel : Text → Type 0
IsLabel p = (1 ≤ length p) × (length p ≤ 63)

-- The wire form of a name.
abbrev pub wire_name : List Text → Text
wire_name [] = 0 ∷ []
wire_name (p ∷ ps) = length p ∷ (p ++ wire_name ps)

-- The part of a host that is encoded.
abbrev pub bare_name : Text → Text
bare_name host = trim (trim_space host) (codes ".")

encode_labels_sound :
    (parts : List Text) (out r : Text)
    → encode_labels parts out ≡ ok r
    → All IsLabel parts × (r ≡ out ++ wire_name parts)
unfolding encode_labels
encode_labels_sound [] out r h = ground arith
encode_labels_sound ([] ∷ parts) out r h = ground arith
encode_labels_sound ((c ∷ p) ∷ parts) out r h =
    let wrapped : (suc (length p) % 256 ≡ suc (length p)) ⊎ (63 < suc (length p)) = ground arith in
    ground (
      arith,
      wrapped,
      append_assoc (out ++ (length (c ∷ p) % 256) ∷ []) (c ∷ p) (wire_name parts),
      append_assoc out ((length (c ∷ p) % 256) ∷ []) ((c ∷ p) ++ wire_name parts),
      encode_labels_sound parts ((out ++ (length (c ∷ p) % 256) ∷ []) ++ (c ∷ p)) r,
    )

encode_labels_complete :
    (parts : List Text) (out : Text)
    → All IsLabel parts
    → encode_labels parts out ≡ ok (out ++ wire_name parts)
unfolding encode_labels
encode_labels_complete [] out h = refl
encode_labels_complete ([] ∷ parts) out h = absurd (omega arith)
encode_labels_complete ((c ∷ p) ∷ parts) out h =
    let wrapped : suc (length p) % 256 ≡ suc (length p) = omega arith in
    ground (
      arith,
      wrapped,
      append_assoc (out ++ (length (c ∷ p) % 256) ∷ []) (c ∷ p) (wire_name parts),
      append_assoc out ((length (c ∷ p) % 256) ∷ []) ((c ∷ p) ++ wire_name parts),
      encode_labels_complete parts ((out ++ (length (c ∷ p) % 256) ∷ []) ++ (c ∷ p)) h.1,
    )

length-cons_head :
    (c : ℕ) (ps : List Text)
    → ps ≢ []
    → length (wire_name (cons_head c ps)) ≡ length (wire_name ps) + 1
length-cons_head c [] h = absurd (h refl)
length-cons_head c (p ∷ ps) h = omega arith

length-wire_name-split : (s : Text) (sep : ℕ) → length (wire_name (split s sep)) ≡ length s + 2
unfolding split
length-wire_name-split [] sep = omega arith
length-wire_name-split (c ∷ s) sep =
    ground
      (arith, length-wire_name-split s sep, length-cons_head c (split s sep) (split-ne-nil s sep))

length-wire_name : (ps : List Text) → length ps < length (wire_name ps)
length-wire_name [] = omega arith
length-wire_name (p ∷ ps) = omega (arith, length-wire_name ps, length-append p (wire_name ps))

-- A round of the loop at the length byte of a label.
skip_labels-label :
    (rounds : ℕ) (msg : Text) (offset n : ℕ)
    → byte_at msg offset ≡ ok n
    → offset < length msg
    → 1 ≤ n
    → n ≤ 63
    → skip_labels (suc rounds) msg offset ≡ skip_labels rounds msg (offset + 1 + n)
unfolding skip_labels
skip_labels-label rounds msg offset n read inside lo hi =
    let top : n / 64 ≡ 0 = omega arith in ground (arith, bit_and-top n (omega arith))

skip_labels-end :
    (rounds : ℕ) (msg : Text) (offset : ℕ)
    → byte_at msg offset ≡ ok 0
    → offset < length msg
    → skip_labels (suc rounds) msg offset ≡ ok (offset + 1)
unfolding skip_labels
skip_labels-end rounds msg offset read inside = ground arith

-- `skipDNSName` lands behind an encoded name, wherever it stands in a message.
skip_labels-wire_name :
    (ps : List Text) (pre rest : Text) (rounds : ℕ)
    → All IsLabel ps
    → length ps < rounds
    → skip_labels rounds (pre ++ (wire_name ps ++ rest)) (length pre)
      ≡ ok (length pre + length (wire_name ps))
skip_labels-wire_name ps pre rest zero h k = absurd (omega arith)
skip_labels-wire_name [] pre rest (suc rounds) h k =
    skip_labels-end rounds (pre ++ (0 ∷ rest)) (length pre) (byte_at-append pre 0 rest)
      (omega (arith, length-append pre (0 ∷ rest)))
skip_labels-wire_name (p ∷ ps) pre rest (suc rounds) h k =
    let label = length p ∷ p in
    let msg = pre ++ (label ++ (wire_name ps ++ rest)) in
    let moved : (pre ++ label) ++ (wire_name ps ++ rest) ≡ msg = append_assoc pre label _ in
    let len : length (pre ++ label) ≡ length pre + 1 + length p =
      omega (arith, length-append pre label) in
    let step =
      skip_labels-label rounds msg (length pre) (length p)
        (byte_at-append pre (length p) (p ++ (wire_name ps ++ rest)))
        (omega (arith, length-append pre (length p ∷ (p ++ (wire_name ps ++ rest))))) h.0.0 h.0.1 in
    let rec = skip_labels-wire_name ps (pre ++ label) rest rounds h.1 (omega arith) in
    rw (append_assoc p (wire_name ps) rest)
      (step ∙ rw (moved, len) at rec ∙ ap ok (omega (arith, length-append p (wire_name ps))))

-- The encoding of an accepted host is its labels, each behind its length, with one zero behind all:
-- two bytes more than the host has without white space and dots around it. Every label has 1 to 63
-- bytes.
pub encode_dns_name_sound :
    (host r : Text)
    → encode_dns_name host ≡ ok r
    → All IsLabel (split (bare_name host) b'.')
      × (r ≡ wire_name (split (bare_name host) b'.'))
      × (length r ≡ length (bare_name host) + 2)
unfolding encode_dns_name
encode_dns_name_sound host r h = ground (
  arith,
  encode_labels_sound (split (bare_name host) b'.') [] r,
  length-wire_name-split (bare_name host) b'.',
)

-- A host whose part without white space and dots around it is not empty, and has labels of 1 to 63
-- bytes only, is accepted, and its encoding is the wire form of these labels.
pub encode_dns_name_complete :
    (host : Text)
    → bare_name host ≢ []
    → All IsLabel (split (bare_name host) b'.')
    → encode_dns_name host ≡ ok (wire_name (split (bare_name host) b'.'))
unfolding encode_dns_name
encode_dns_name_complete host h labels =
    ground (arith, encode_labels_complete (split (bare_name host) b'.') [] labels)

-- In any message `skipDNSName` steps over a name in wire form exactly, to the byte behind it.
pub skip_dns_name-wire_name :
    (ps : List Text) (pre rest : Text)
    → All IsLabel ps
    → skip_dns_name (pre ++ (wire_name ps ++ rest)) (length pre)
      ≡ ok (length pre + length (wire_name ps))
unfolding skip_dns_name
skip_dns_name-wire_name ps pre rest h = skip_labels-wire_name ps pre rest _ h (
    omega (
      arith,
      length-wire_name ps,
      length-append pre (wire_name ps ++ rest),
      length-append (wire_name ps) rest,
    ))
