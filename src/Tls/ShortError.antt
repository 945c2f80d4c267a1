-- ===== src/Tls/ShortError.antt =====
-- internal/checker/tls.go: `shortError`.
use ssl_certificate_verifier.Base.{
  ℕ, zero, suc, ◌≤◌, ◌≡◌, refl, arith, false, [], ◌∷◌, ◌++◌, ◌==◌, if◌then◌else◌, Text, codes,
  length, length-append, length-take, take, ltb, Option, none, some, All-append, Bool-cases, inl,
  inr,
}
use ssl_certificate_verifier.Strings.{replace_byte, Lacks}

-- The text of an error that is set.
unfoldable pub short_text : Text → Text
short_text message =
    let s = replace_byte message b'\n' b' ' in
    if ltb 180 (length s) then take 177 s ++ codes "..." else s

pub short_error : Option Text → Text
short_error none = []
short_error (some message) = short_text message

take-Lacks : (b : ℕ) (n : ℕ) (s : Text) → Lacks b s → Lacks b (take n s)
take-Lacks b zero s h = tt
take-Lacks b (suc n) [] h = tt
take-Lacks b (suc n) (c ∷ s) h = (h.0, take-Lacks b n s h.1)

replace_byte-Lacks :
    (s : Text) (new : ℕ) → (new == b'\n') ≡ false → Lacks b'\n' (replace_byte s b'\n' new)
unfolding replace_byte
replace_byte-Lacks [] new h = tt
replace_byte-Lacks (c ∷ s) new h = (ground arith, replace_byte-Lacks s new h)

replace_byte_id : (s : Text) (new : ℕ) → Lacks b'\n' s → replace_byte s b'\n' new ≡ s
unfolding replace_byte
replace_byte_id [] new h = refl
replace_byte_id (c ∷ s) new h = rw (h.0, replace_byte_id s new h.1)

-- A shortened error is one line of 180 bytes at most.
pub short_error_bounds :
    (e : Option Text) → (length (short_error e) ≤ 180) × Lacks b'\n' (short_error e)
unfolding short_error short_text codes
short_error_bounds none = (omega arith, tt)
short_error_bounds (some message) =
    let s = replace_byte message b'\n' b' ' in
    let lacks = replace_byte-Lacks message b' ' refl in
    let dots : Text = codes "..." in
    let cut = take 177 s in
    elim (Bool-cases (ltb 180 (length s))) [
      | inl long ↦ rw long (
        omega (arith, length-append cut dots, length-take 177 s),
        All-append _ cut dots (take-Lacks b'\n' 177 s lacks) (refl, (refl, (refl, tt))),
      )
      | inr short ↦ rw short (ground arith, lacks)
    ]

-- An error of one line and 180 bytes at most is not changed.
pub short_error_id :
    (message : Text)
    → length message ≤ 180
    → Lacks b'\n' message
    → short_error (some message) ≡ message
unfolding short_error short_text
short_error_id message h lacks =
    let same = replace_byte_id message b' ' lacks in rw same (ground arith)
