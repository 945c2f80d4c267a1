-- ===== src/Render/Ciphers/Limit.antt =====
-- The limit of the list of accepted suites.
use ssl_certificate_verifier.Base.{
  ℕ, ◌+◌, ◌-◌, leb, List, [], ◌∷◌, ◌++◌, map, length, take, if◌then◌else◌, Text, codes, is_empty,
}
use ssl_certificate_verifier.Types.{TlsCipherSupport}
use ssl_certificate_verifier.Render.Words.{when}
use ssl_certificate_verifier.Render.Ciphers.{cipher_line, more_line, cipher_limit}

-- The accepted suites, in order.
unfoldable pub accepted : List TlsCipherSupport → List TlsCipherSupport
accepted [] = []
accepted (c ∷ values) = if c.supported then c ∷ accepted values else accepted values

-- The lines of the accepted suites, and the rest of the list behind the limit.
abbrev pub listed : List TlsCipherSupport → List Text
listed suites =
    if is_empty suites
    then codes "  -" ∷ []
    else map cipher_line (take cipher_limit suites)
      ++ when (leb cipher_limit (length suites)) (more_line (length suites - cipher_limit) ∷ [])

-- What the loop gives with `left` lines before the limit.
abbrev taken : ℕ → ℕ → List TlsCipherSupport → List Text × ℕ
taken all left suites = (
  map cipher_line (take left suites)
      ++ when (leb left (length suites)) (more_line (all - cipher_limit) ∷ []),
  if leb left (length suites) then cipher_limit else cipher_limit - left + length suites,
)
