-- ===== src/Strings/Search.antt =====
-- `strings.Contains`, `Count`, `IndexByte`, `LastIndex` and `EqualFold`, for one-byte needles where
-- the program passes one.
use ssl_certificate_verifier.Base.{
  ℕ, suc, ◌+◌, ◌≡◌, refl, Bool, false, ◌||◌, [], ◌∷◌, ◌++◌, arith, ◌==◌, if◌then◌else◌, Option,
  none, some, Text, str_eq, length, All,
}
use mathlib.Core.Option
use ssl_certificate_verifier.Strings.Edges.{has_prefix, to_lower}

unfoldable pub contains : Text → Text → Bool
contains [] sub = has_prefix [] sub
contains (c ∷ s) sub = has_prefix (c ∷ s) sub || contains s sub

unfoldable pub count_byte : Text → ℕ → ℕ
count_byte [] b = 0
count_byte (c ∷ s) b = (if c == b then 1 else 0) + count_byte s b

-- `none` is Go's -1.
unfoldable pub index_byte : Text → ℕ → Option ℕ
index_byte [] b = none
index_byte (c ∷ s) b = if c == b then some 0 else Option.map suc (index_byte s b)

unfoldable pub last_index_byte : Text → ℕ → Option ℕ
last_index_byte [] b = none
last_index_byte (c ∷ s) b = elim (last_index_byte s b) [
  | some i ↦ some (suc i)
  | none ↦ if c == b then some 0 else none
]

unfoldable pub equal_fold : Text → Text → Bool
equal_fold a b = str_eq (to_lower a) (to_lower b)

abbrev pub Lacks : ℕ → Text → Type 0
Lacks b = All (λ c. (c == b) ≡ false)

pub index_byte-Lacks : (s : Text) (b : ℕ) → Lacks b s → index_byte s b ≡ none
unfolding index_byte
index_byte-Lacks [] b h = refl
index_byte-Lacks (c ∷ s) b h = rw (h.0, index_byte-Lacks s b h.1)

-- The first `b` stands behind a part that has none.
pub index_byte-append :
    (s rest : Text) (b : ℕ) → Lacks b s → index_byte (s ++ (b ∷ rest)) b ≡ some (length s)
unfolding index_byte
index_byte-append [] rest b h = ground arith
index_byte-append (c ∷ s) rest b h = rw (h.0, index_byte-append s rest b h.1)

-- The last `b` stands before a part that has none.
last_index_byte-Lacks : (s : Text) (b : ℕ) → Lacks b s → last_index_byte s b ≡ none
unfolding last_index_byte
last_index_byte-Lacks [] b h = refl
last_index_byte-Lacks (c ∷ s) b h = rw (last_index_byte-Lacks s b h.1, h.0)

pub last_index_byte-append :
    (s rest : Text) (b : ℕ) → Lacks b rest → last_index_byte (s ++ (b ∷ rest)) b ≡ some (length s)
unfolding last_index_byte
last_index_byte-append [] rest b h = ground (arith, last_index_byte-Lacks rest b h)
last_index_byte-append (c ∷ s) rest b h = rw (last_index_byte-append s rest b h)

count_byte-append : (s t : Text) (b : ℕ) → count_byte (s ++ t) b ≡ count_byte s b + count_byte t b
unfolding count_byte
count_byte-append [] t b = omega arith
count_byte-append (c ∷ s) t b = omega (arith, count_byte-append s t b)
