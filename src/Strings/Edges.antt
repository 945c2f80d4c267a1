-- ===== src/Strings/Edges.antt =====
-- `strings.TrimSpace`, `Trim`, `TrimPrefix`, `HasPrefix`, `HasSuffix`, `ToLower`, `ToUpper`.
use ssl_certificate_verifier.Base.{
  ℕ, ◌+◌, ◌-◌, ◌≤◌, ◌≡◌, refl, Bool, true, false, ◌&&◌, ◌||◌, [], ◌∷◌, map, arith, leb, ◌==◌,
  if◌then◌else◌, length, drop, is_empty, any, Text, All, ap, ◌∙◌,
}

-- The white space of ASCII: tab, newline, vertical tab, form feed, carriage return, blank.
abbrev pub is_space : ℕ → Bool
is_space c = c == b' ' || (leb 9 c && leb c 13)

abbrev to_lower_byte : ℕ → ℕ
to_lower_byte c = if leb b'A' c && leb c b'Z' then c + 32 else c

abbrev pub to_upper_byte : ℕ → ℕ
to_upper_byte c = if leb b'a' c && leb c b'z' then c - 32 else c

unfoldable pub to_lower : Text → Text
to_lower = map to_lower_byte

unfoldable pub to_upper : Text → Text
to_upper = map to_upper_byte

-- The bytes that `strings.Trim` cuts are those of its second argument.
unfoldable pub trim_left : (ℕ → Bool) → Text → Text
trim_left p [] = []
trim_left p (c ∷ s) = if p c then trim_left p s else c ∷ s

unfoldable pub trim_right : (ℕ → Bool) → Text → Text
trim_right p [] = []
trim_right p (c ∷ s) = let rest = trim_right p s in if is_empty rest && p c then [] else c ∷ rest

unfoldable pub trim_both : (ℕ → Bool) → Text → Text
trim_both p s = trim_right p (trim_left p s)

unfoldable pub trim_space : Text → Text
trim_space = trim_both is_space

unfoldable pub trim : Text → Text → Text
trim s cutset = trim_both (λ c. any (λ d. d == c) cutset) s

unfoldable pub has_prefix : Text → Text → Bool
has_prefix s [] = true
has_prefix [] (p ∷ ps) = false
has_prefix (c ∷ s) (p ∷ ps) = c == p && has_prefix s ps

unfoldable pub has_suffix : Text → Text → Bool
has_suffix [] [] = true
has_suffix [] (p ∷ ps) = false
has_suffix (c ∷ s) ps = (length s + 1 == length ps && has_prefix (c ∷ s) ps) || has_suffix s ps

unfoldable pub trim_prefix : Text → Text → Text
trim_prefix s p = if has_prefix s p then drop (length p) s else s

-- Every byte of the text is kept by the predicate's complement at both ends.
trim_left-length : (p : ℕ → Bool) (s : Text) → length (trim_left p s) ≤ length s
unfolding trim_left
trim_left-length p [] = omega arith
trim_left-length p (c ∷ s) = ground (arith, trim_left-length p s)

trim_right-length : (p : ℕ → Bool) (s : Text) → length (trim_right p s) ≤ length s
unfolding trim_right
trim_right-length p [] = omega arith
trim_right-length p (c ∷ s) = ground (arith, trim_right-length p s)

-- A text none of whose bytes is cut is left alone.
trim_left-none : (p : ℕ → Bool) (s : Text) → All (λ c. p c ≡ false) s → trim_left p s ≡ s
unfolding trim_left
trim_left-none p [] h = refl
trim_left-none p (c ∷ s) h = ground arith

pub trim_right-none : (p : ℕ → Bool) (s : Text) → All (λ c. p c ≡ false) s → trim_right p s ≡ s
unfolding trim_right
trim_right-none p [] h = refl
trim_right-none p (c ∷ s) h = ground (arith, trim_right-none p s)

pub trim_both-none : (p : ℕ → Bool) (s : Text) → All (λ c. p c ≡ false) s → trim_both p s ≡ s
unfolding trim_both
trim_both-none p s h = ap (trim_right p) (trim_left-none p s h) ∙ trim_right-none p s h
