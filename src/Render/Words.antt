-- ===== src/Render/Words.antt =====
-- internal/checker/render.go: the helpers, and what the report uses of `fmt`, over ASCII text.
use ssl_certificate_verifier.Base.{
  ℕ, zero, suc, ◌+◌, ◌-◌, leb, ◌==◌, length, take, Bool, not, ◌||◌, List, [], ◌∷◌, ◌++◌,
  if◌then◌else◌, Text, codes, is_empty,
}
use ssl_certificate_verifier.Strings.{join, itoa}
use ssl_certificate_verifier.Types.{VerificationInfo, TlsCipherSupport}

unfoldable pub yes_no : Bool → Text
yes_no v = if v then codes "yes" else codes "no"

unfoldable pub pass_fail : Bool → Text
pass_fail v = if v then codes "PASS" else codes "FAIL"

unfoldable pub hostname_status : VerificationInfo → Text
hostname_status v =
    if not v.hostname_checked
    then codes "SKIPPED"
    else pass_fail v.hostname_verified ++ (codes " (" ++ (v.verify_name ++ codes ")"))

abbrev comma : Text
comma = codes ", "

-- The limit is never negative where it is called.
unfoldable pub join_limit : List Text → ℕ → Text
join_limit values limit =
    if is_empty values
    then codes "-"
    else if limit == 0 || leb (length values) limit
    then join values comma
    else join (take limit values) comma
      ++ (codes " ... +" ++ (itoa (length values - limit) ++ codes " more"))

unfoldable pub accepted_cipher_count : List TlsCipherSupport → ℕ
accepted_cipher_count [] = 0
accepted_cipher_count (value ∷ values) =
    (if value.supported then 1 else 0) + accepted_cipher_count values

unfoldable pub blanks : ℕ → Text
blanks zero = []
blanks (suc n) = b' ' ∷ blanks n

-- The verb `%-7s`, for any width.
unfoldable pub pad : ℕ → Text → Text
pad width s = s ++ blanks (width - length s)

-- The lines under a condition.
abbrev pub when : Bool → List Text → List Text
when b lines = if b then lines else []

-- A blank line, a title and a line under it.
abbrev pub titled : Text → Text → List Text → List Text
titled title under lines = [] ∷ title ∷ under ∷ lines

-- The lines, each with a line feed.
unfoldable pub unlines : List Text → Text
unlines [] = []
unlines (l ∷ lines) = l ++ (b'\n' ∷ unlines lines)
