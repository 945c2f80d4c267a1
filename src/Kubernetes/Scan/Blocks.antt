-- ===== src/Kubernetes/Scan/Blocks.antt =====
-- The blocks that `readCertificates` reads, as a relation.
use ssl_certificate_verifier.Base.{
  ℕ, zero, suc, length, ◌≤◌, ◌<◌, ◌≡◌, refl, ap, ◌∙◌, arith, Bool, true, false, not, List, [], ◌∷◌,
  ◌++◌, append_assoc, append-nil, if◌then◌else◌, Text, none, some, Option-cases, ◌⊎◌, inl, inr,
  Outcome, ok, err, panic, ◌>>=◌, bind_eq, Safely, Safely-if, Safely->>=, subst, sym,
}
use ssl_certificate_verifier.Types.{Bytes}
use ssl_certificate_verifier.X509.{Certificate}
use ssl_certificate_verifier.Kubernetes.{Files}
use ssl_certificate_verifier.Kubernetes.Scan.{
  Block, Decoders, is_certificate, added, add_block, read_blocks, or_der, read_all,
  read_certificates,
}

-- The rest behind a block is shorter, as the documentation of encoding/pem says.
abbrev pub Shrinks : Decoders → Type 0
Shrinks dec =
    (bytes : Bytes) (block : Block) (rest : Bytes)
    → dec.decode_pem bytes ≡ some (block, rest)
    → length rest < length bytes

-- The blocks of the bytes, from the first to the last.
pub data Decodes (dec : Decoders) : Bytes → List Block → Type 0 where
  finished : (bytes : Bytes) → dec.decode_pem bytes ≡ none → Decodes dec bytes []
  next :
      (bytes : Bytes) (block : Block) (rest : Bytes) (blocks : List Block)
      → dec.decode_pem bytes ≡ some (block, rest)
      → Decodes dec rest blocks
      → Decodes dec bytes (block ∷ blocks)

-- The certificates of the blocks in order, or the first error.
abbrev first_of : Text ⊎ Certificate → Outcome (List Certificate) → Outcome (List Certificate)
first_of (inl e) later = err e
first_of (inr cert) later = later >>= λ certs. ok (cert ∷ certs)

unfoldable pub parse_blocks : Decoders → List Block → Outcome (List Certificate)
parse_blocks dec [] = ok []
parse_blocks dec (block ∷ blocks) =
    let later = parse_blocks dec blocks in
    if not (is_certificate block) then later else first_of (dec.parse_certificate block.bytes) later

-- The certificates behind those before.
abbrev behind : List Certificate → Outcome (List Certificate) → Outcome (List Certificate)
behind certs m = m >>= λ more. ok (certs ++ more)

added-behind :
    (certs : List Certificate) (p : Text ⊎ Certificate) (m : Outcome (List Certificate))
    → (added certs p >>= λ certs. behind certs m) ≡ behind certs (first_of p m)
added-behind certs (inl e) m = refl
added-behind certs (inr cert) (ok more) = ap ok (append_assoc certs (cert ∷ []) more)
added-behind certs (inr cert) (err e) = refl
added-behind certs (inr cert) panic = refl

module _ (dec : Decoders) where
  add_block-behind :
      (block : Block) (blocks : List Block) (certs : List Certificate)
      → (add_block dec block certs >>= λ certs. behind certs (parse_blocks dec blocks))
        ≡ behind certs (parse_blocks dec (block ∷ blocks))
  unfolding parse_blocks
  add_block-behind block blocks certs = at (is_certificate block)
    where
      at :
          (b : Bool)
          → ((if not b then ok certs else added certs (dec.parse_certificate block.bytes))
              >>= λ certs. behind certs (parse_blocks dec blocks))
            ≡ behind certs (
                if not b
                then parse_blocks dec blocks
                else first_of (dec.parse_certificate block.bytes) (parse_blocks dec blocks))
      at true = added-behind certs (dec.parse_certificate block.bytes) (parse_blocks dec blocks)
      at false = refl

  -- The loop ends, and does what the specification says of the blocks.
  abbrev Ends : ℕ → Bytes → Type 0
  Ends fuel bytes =
      (blocks : List Block) × Decodes dec bytes blocks
      × ((certs : List Certificate)
          → read_blocks dec fuel (dec.decode_pem bytes) certs
            ≡ behind certs (parse_blocks dec blocks))

  no_block : (fuel : ℕ) (bytes : Bytes) → dec.decode_pem bytes ≡ none → Ends fuel bytes
  unfolding read_blocks parse_blocks
  no_block zero bytes e = ([], finished bytes e, λ certs. rw (e, append-nil) refl)
  no_block (suc fuel) bytes e = ([], finished bytes e, λ certs. rw (e, append-nil) refl)

  read_blocks-Ends :
      Shrinks dec → (fuel : ℕ) (bytes : Bytes) → length bytes ≤ fuel → Ends fuel bytes
  unfolding read_blocks
  read_blocks-Ends shrinks zero bytes h = elim (Option-cases (dec.decode_pem bytes)) [
    | inl e ↦ no_block zero bytes e
    | inr ((block, rest), e) ↦ absurd (omega (arith, shrinks bytes block rest e))
  ]
  read_blocks-Ends shrinks (suc fuel) bytes h = elim (Option-cases (dec.decode_pem bytes)) [
    | inl e ↦ no_block (suc fuel) bytes e
    | inr ((block, rest), e) ↦
        let (blocks, decodes, reads) =
          read_blocks-Ends shrinks fuel rest (omega (arith, shrinks bytes block rest e)) in
        (
          block ∷ blocks,
          next bytes block rest blocks e decodes,
          λ certs.
              rw e (
                bind_eq (add_block dec block certs) _ _ reads
                ∙ add_block-behind block blocks certs),
        )
  ]

pub read_certificates-Decodes :
    (files : Files) (dec : Decoders) (path : Text) (bytes : Bytes)
    → Shrinks dec
    → files.read_file path ≡ inr bytes
    → (blocks : List Block) × Decodes dec bytes blocks
      × (read_certificates files dec path
          ≡ (parse_blocks dec blocks >>= or_der bytes (dec.parse_certificate bytes)))
unfolding read_certificates
read_certificates-Decodes files dec path bytes shrinks read =
    let (blocks, decodes, reads) =
      read_blocks-Ends dec shrinks (length bytes) bytes (omega arith) in
    (
      blocks,
      decodes,
      rw (read, reads [])
          (ap (λ m. m >>= or_der bytes (dec.parse_certificate bytes))
            (behind_nil (parse_blocks dec blocks))),
    )
  where
    behind_nil : (m : Outcome (List Certificate)) → behind [] m ≡ m
    behind_nil (ok certs) = refl
    behind_nil (err e) = refl
    behind_nil panic = refl

first_of-Safely :
    (p : Text ⊎ Certificate) (m : Outcome (List Certificate))
    → Safely (λ certs. Unit {0}) m
    → Safely (λ certs. Unit {0}) (first_of p m)
first_of-Safely (inl e) m h = tt
first_of-Safely (inr cert) (ok certs) h = tt
first_of-Safely (inr cert) (err e) h = tt
first_of-Safely (inr cert) panic h = h

parse_blocks-Safely :
    (dec : Decoders) (blocks : List Block) → Safely (λ certs. Unit {0}) (parse_blocks dec blocks)
unfolding parse_blocks
parse_blocks-Safely dec [] = tt
parse_blocks-Safely dec (block ∷ blocks) =
    Safely-if (λ certs. Unit {0}) (not (is_certificate block)) _ _
      (λ _. parse_blocks-Safely dec blocks)
      (λ _. first_of-Safely (dec.parse_certificate block.bytes) _ (parse_blocks-Safely dec blocks))

or_der-Safely :
    (bytes : Bytes) (p : Text ⊎ Certificate) (certs : List Certificate)
    → Safely (λ certs. Unit {0}) (or_der bytes p certs)
or_der-Safely bytes p (c ∷ certs) = tt
or_der-Safely bytes (inl e) [] = tt
or_der-Safely bytes (inr cert) [] = tt

pub read_certificates-Safely :
    (files : Files) (dec : Decoders) (path : Text)
    → Shrinks dec
    → Safely (λ certs. Unit {0}) (read_certificates files dec path)
unfolding read_certificates
read_certificates-Safely files dec path shrinks = at (files.read_file path) refl
  where
    at : (o : Text ⊎ Bytes) → files.read_file path ≡ o → Safely (λ certs. Unit {0}) (read_all dec o)
    at (inl e) read = tt
    at (inr bytes) read =
        let (blocks, decodes, reads) =
          read_certificates-Decodes files dec path bytes shrinks read in
        subst (Safely (λ certs. Unit {0})) (sym (ap (read_all dec) (sym read) ∙ reads)) (
          Safely->>= (λ certs. Unit {0}) (λ certs. Unit {0}) (parse_blocks dec blocks) _
            (parse_blocks-Safely dec blocks)
            λ certs _. or_der-Safely bytes (dec.parse_certificate bytes) certs)
