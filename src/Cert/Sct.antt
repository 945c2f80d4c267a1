-- ===== src/Cert/Sct.antt =====
-- internal/checker/cert.go: `hasOCSPMustStaple`, `embeddedSCTCount` and `countSCTList`.
pub mod Der
pub mod RoundTrip
use ssl_certificate_verifier.Base.{
  ℕ, zero, suc, ◌+◌, ◌-◌, ◌*◌, Bool, true, false, List, [], ◌∷◌, bit_or, ltb, leb, if◌then◌else◌,
  Text, str_eq, any, length, Option, none, some, Outcome, ok, err, panic, ◌>>=◌, byte_at,
}
use ssl_certificate_verifier.X509.{Certificate, Extension}

-- The loop: a round for each entry of the list, and a last one that leaves it. The first argument
-- bounds the rounds.
unfoldable pub count_entries : ℕ → Text → ℕ → ℕ → ℕ → Outcome ℕ
count_entries zero raw end offset count = panic
count_entries (suc rounds) raw end offset count =
    if leb (offset + 2) end
    then (do
      hi ← byte_at raw offset
      lo ← byte_at raw (offset + 1)
      let size = bit_or (hi * 256) lo
      let more = count_entries rounds raw end (offset + 2 + size) (count + 1)
      if ltb end (offset + 2 + size) then ok count else more)
    else ok count

unfoldable pub count_sct_list : Text → Outcome ℕ
count_sct_list raw = if ltb (length raw) 2 then ok 0 else do
  hi ← byte_at raw 0
  lo ← byte_at raw 1
  let announced = bit_or (hi * 256) lo
  let total = if ltb (length raw - 2) announced then length raw - 2 else announced
  count_entries (length raw) raw (2 + total) 2 0

-- Object identifiers are lists of numbers, compared as Go compares them.
abbrev must_staple_oid : List ℕ
must_staple_oid = 1 ∷ 3 ∷ 6 ∷ 1 ∷ 5 ∷ 5 ∷ 7 ∷ 1 ∷ 24 ∷ []

abbrev pub sct_oid : List ℕ
sct_oid = 1 ∷ 3 ∷ 6 ∷ 1 ∷ 4 ∷ 1 ∷ 11129 ∷ 2 ∷ 4 ∷ 2 ∷ []

unfoldable pub has_ocsp_must_staple : Option Certificate → Bool
has_ocsp_must_staple none = false
has_ocsp_must_staple (some cert) = any (λ ext. str_eq ext.id must_staple_oid) cert.extensions

unfoldable pub count_in_extensions : List Extension → Outcome ℕ
count_in_extensions [] = ok 0
count_in_extensions (ext ∷ exts) =
    if str_eq ext.id sct_oid then count_sct_list ext.value else count_in_extensions exts

unfoldable pub embedded_sct_count : Option Certificate → Outcome ℕ
embedded_sct_count none = ok 0
embedded_sct_count (some cert) = count_in_extensions cert.extensions
