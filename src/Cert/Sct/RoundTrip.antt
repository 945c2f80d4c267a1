-- ===== src/Cert/Sct/RoundTrip.antt =====
-- `countSCTList` reads nothing outside its input, and counts the entries of a list in wire form.
use ssl_certificate_verifier.Base.{
  ℕ, zero, suc, ◌+◌, ◌-◌, ◌*◌, ◌/◌, ◌%◌, ◌≤◌, ◌<◌, ◌≡◌, ap, ◌∙◌, arith, true, false, List, [], ◌∷◌,
  ◌++◌, append_assoc, bit_or, ltb, leb, if◌then◌else◌, Text, length, length-append, ok, byte_at,
  byte_at-lt, byte_at-append, Returns, Returns->>=, Returns-if, Returns-mono, get_elem?-shift,
}
use ssl_certificate_verifier.Base.Bits.{bit_or-byte}
use ssl_certificate_verifier.Cert.Sct.{count_entries, count_sct_list}

byte_at-Returns : (s : Text) (i : ℕ) → i < length s → Returns (λ _. Unit) (byte_at s i)
byte_at-Returns s i h = let (b, read) = byte_at-lt s i h in rw read tt

ltb-false : (a b : ℕ) → ltb a b ≡ false → b ≤ a
ltb-false a b h = ground arith

leb-true : (a b : ℕ) → leb a b ≡ true → a ≤ b
leb-true a b h = ground arith

-- Each entry takes two bytes at least.
count_entries-Returns :
    (rounds : ℕ) (raw : Text) (end offset count : ℕ)
    → end ≤ length raw
    → end - offset < rounds
    → Returns
        (λ n. (count ≤ n) × (2 * (n - count) ≤ end - offset))
        (count_entries rounds raw end offset count)
unfolding count_entries
count_entries-Returns zero raw end offset count h k = absurd (omega arith)
count_entries-Returns (suc rounds) raw end offset count h k =
    Returns-if _ (leb (offset + 2) end) _ _
      (λ more.
        Returns->>= (λ _. Unit) _ (byte_at raw offset) _ (byte_at-Returns raw offset (ground arith))
          λ hi _.
            Returns->>= (λ _. Unit) _ (byte_at raw (offset + 1)) _
              (byte_at-Returns raw (offset + 1) (ground arith))
              λ lo _.
                Returns-if _ (ltb end (offset + 2 + bit_or (hi * 256) lo)) _ _ (λ past. omega arith)
                  (λ fits.
                    Returns-mono _ _
                      (count_entries rounds raw end (offset + 2 + bit_or (hi * 256) lo) (count + 1))
                      (λ n least.
                        omega (arith, ltb-false end (offset + 2 + bit_or (hi * 256) lo) fits))
                      (count_entries-Returns rounds raw end (offset + 2 + bit_or (hi * 256) lo)
                        (count + 1) h
                        (omega (
                          arith,
                          ltb-false end (offset + 2 + bit_or (hi * 256) lo) fits,
                          leb-true (offset + 2) end more,
                        )))))
      (λ done. omega arith)

-- For any bytes `countSCTList` returns: it reads nothing outside them and ends. It counts at most
-- one entry for two bytes behind the length.
pub count_sct_list-Returns :
    (raw : Text) → Returns (λ n. 2 * n ≤ length raw - 2) (count_sct_list raw)
unfolding count_sct_list
count_sct_list-Returns raw =
    Returns-if _ (ltb (length raw) 2) _ _ (λ short. omega arith)
      λ long.
        Returns->>= (λ _. Unit) _ (byte_at raw 0) _ (byte_at-Returns raw 0 (ground arith))
          λ hi _.
            Returns->>= (λ _. Unit) _ (byte_at raw 1) _ (byte_at-Returns raw 1 (ground arith))
              λ lo _.
                let announced = bit_or (hi * 256) lo in
                let total = if ltb (length raw - 2) announced then length raw - 2 else announced in
                let bound : total ≤ length raw - 2 = ground arith in
                Returns-mono _ _ (count_entries (length raw) raw (2 + total) 2 0)
                  (λ n least. omega (arith, bound))
                  (count_entries-Returns (length raw) raw (2 + total) 2 0
                    (omega (arith, bound, ltb-false (length raw) 2 long))
                    (omega (arith, bound, ltb-false (length raw) 2 long)))

-- A list of timestamps in wire form, each shorter than 65536 bytes, and so all together.
abbrev pub wire_uint16 : ℕ → Text
wire_uint16 n = (n / 256 % 256) ∷ (n % 256) ∷ []

abbrev pub wire_entries : List Text → Text
wire_entries [] = []
wire_entries (sct ∷ scts) = wire_uint16 (length sct) ++ (sct ++ wire_entries scts)

abbrev pub wire_sct_list : List Text → Text
wire_sct_list scts = wire_uint16 (length (wire_entries scts)) ++ wire_entries scts

size_read : (n : ℕ) → n < 65536 → bit_or ((n / 256 % 256) * 256) (n % 256) ≡ n
size_read n h = omega (arith, bit_or-byte (n / 256 % 256) (n % 256) (omega arith))

byte_at-next :
    (pre : Text) (c d : ℕ) (rest : Text) → byte_at (pre ++ (c ∷ d ∷ rest)) (length pre + 1) ≡ ok d
unfolding byte_at
byte_at-next pre c d rest = rw (get_elem?-shift pre (c ∷ d ∷ rest) 1)

-- A round of the loop at an entry that fits.
count_entries-entry :
    (sct pre rest : Text) (rounds end count : ℕ)
    → length sct < 65536
    → length pre + 2 + length sct ≤ end
    → count_entries
        (suc rounds)
        (pre ++ (wire_uint16 (length sct) ++ (sct ++ rest)))
        end
        (length pre)
        count
      ≡ count_entries rounds
          (pre ++ (wire_uint16 (length sct) ++ (sct ++ rest)))
          end
          (length pre + 2 + length sct)
          (count + 1)
unfolding count_entries
count_entries-entry sct pre rest rounds end count h fits =
    let n = length sct in
    let more : leb (length pre + 2) end ≡ true = ground arith in
    let inside : ltb end (length pre + 2 + n) ≡ false = ground arith in
    rw (
      more,
      byte_at-append pre (n / 256 % 256) _,
      byte_at-next pre (n / 256 % 256) (n % 256) _,
      size_read n h,
      inside,
    )

count_entries-wire_entries :
    (scts : List Text) (pre : Text) (rounds count : ℕ)
    → length scts < rounds
    → length (wire_entries scts) < 65536
    → count_entries rounds
        (pre ++ wire_entries scts)
        (length pre + length (wire_entries scts))
        (length pre)
        count
      ≡ ok (count + length scts)
count_entries-wire_entries scts pre zero count h k = absurd (omega arith)
count_entries-wire_entries [] pre (suc rounds) count h k = unfold count_entries in ground arith
count_entries-wire_entries (sct ∷ scts) pre (suc rounds) count h k =
    let rest = wire_entries scts in
    let entry = wire_uint16 (length sct) ++ sct in
    let end = length pre + length (wire_entries (sct ∷ scts)) in
    let both = length-append sct rest in
    let shape : (pre ++ entry) ++ rest ≡ pre ++ wire_entries (sct ∷ scts) =
      append_assoc pre entry rest in
    let at : length (pre ++ entry) ≡ length pre + 2 + length sct =
      omega (arith, length-append pre entry) in
    let stop : length (pre ++ entry) + length rest ≡ end = omega (arith, at, both) in
    count_entries-entry sct pre rest rounds end count (omega (arith, both)) (omega (arith, both))
    ∙ rw (shape, stop, at) at
        (count_entries-wire_entries scts (pre ++ entry) rounds (count + 1) (omega arith)
          (omega (arith, both)))
    ∙ ap ok (omega arith)

length-wire_entries : (scts : List Text) → 2 * length scts ≤ length (wire_entries scts)
length-wire_entries [] = omega arith
length-wire_entries (sct ∷ scts) =
    omega (arith, length-wire_entries scts, length-append sct (wire_entries scts))

-- The count for a list of timestamps in wire form is the number of the timestamps, if the form is
-- shorter than 65536 bytes.
pub count_sct_list-wire_sct_list :
    (scts : List Text)
    → length (wire_entries scts) < 65536
    → count_sct_list (wire_sct_list scts) ≡ ok (length scts)
unfolding count_sct_list byte_at
count_sct_list-wire_sct_list scts h =
    let n = length (wire_entries scts) in
    let raw = wire_sct_list scts in
    let long : ltb (length raw) 2 ≡ false = ground arith in
    let whole : ltb (length raw - 2) n ≡ false = ground arith in
    rw (long, size_read n h, whole)
      (count_entries-wire_entries scts (wire_uint16 n) (length raw) 0
          (omega (arith, length-wire_entries scts)) h
        ∙ ap ok (omega arith))
