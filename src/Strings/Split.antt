-- ===== src/Strings/Split.antt =====
-- `strings.Split` at one byte, `Join`, `Fields`, and `ReplaceAll` of one byte by another.
use ssl_certificate_verifier.Base.{
  ℕ, ◌≡◌, refl, List, [], ◌∷◌, ◌++◌, map, arith, ◌==◌, if◌then◌else◌, Text, is_empty, ap, ◌∙◌, All,
  ◌≢◌,
}
use ssl_certificate_verifier.Strings.Edges.{is_space}
use ssl_certificate_verifier.Strings.Search.{Lacks}

abbrev pub cons_head : ℕ → List Text → List Text
cons_head c [] = (c ∷ []) ∷ []
cons_head c (p ∷ ps) = (c ∷ p) ∷ ps

unfoldable pub split : Text → ℕ → List Text
split [] sep = [] ∷ []
split (c ∷ s) sep = let rest = split s sep in if c == sep then [] ∷ rest else cons_head c rest

unfoldable pub join : List Text → Text → Text
join [] sep = []
join (p ∷ []) sep = p
join (p ∷ q ∷ ps) sep = p ++ (sep ++ join (q ∷ ps) sep)

-- The parts between runs of white space; the second argument is the part being read.
unfoldable pub fields_from : Text → Text → List Text
fields_from part [] = if is_empty part then [] else part ∷ []
fields_from part (c ∷ s) =
    let more = fields_from (part ++ c ∷ []) s in
    let next = fields_from [] s in
    if is_space c then (if is_empty part then next else part ∷ next) else more

unfoldable pub fields : Text → List Text
fields s = fields_from [] s

unfoldable pub replace_byte : Text → ℕ → ℕ → Text
replace_byte s old new = map (λ c. if c == old then new else c) s

pub split-ne-nil : (s : Text) (sep : ℕ) → split s sep ≢ []
unfolding split
split-ne-nil [] sep = cc
split-ne-nil (c ∷ s) sep = ground (arith, split-ne-nil s sep)

-- Splitting at a byte that no part holds gives the parts back.
split-Lacks : (p : Text) (sep : ℕ) → Lacks sep p → split p sep ≡ p ∷ []
unfolding split
split-Lacks [] sep h = refl
split-Lacks (c ∷ p) sep h = rw (h.0, split-Lacks p sep h.1)

split-append :
    (p rest : Text) (sep : ℕ) → Lacks sep p → split (p ++ (sep ∷ rest)) sep ≡ p ∷ split rest sep
unfolding split
split-append [] rest sep h = ground arith
split-append (c ∷ p) rest sep h = rw (h.0, split-append p rest sep h.1)

pub split-join :
    (p : Text) (ps : List Text) (sep : ℕ)
    → Lacks sep p
    → All (Lacks sep) ps
    → split (join (p ∷ ps) (sep ∷ [])) sep ≡ p ∷ ps
unfolding join
split-join p [] sep h hs = split-Lacks p sep h
split-join p (q ∷ ps) sep h hs = split-append p _ sep h ∙ ap (◌∷◌ p) (split-join q ps sep hs.0 hs.1)
