-- ===== src/Render/Ciphers.antt =====
-- internal/checker/render.go: the list of accepted cipher suites.
pub mod Limit
use ssl_certificate_verifier.Base.{
  ℕ, zero, suc, ◌+◌, ◌-◌, leb, ◌==◌, Bool, true, false, not, List, [], ◌∷◌, ◌++◌, if◌then◌else◌,
  Text, codes,
}
use ssl_certificate_verifier.Strings.{join, itoa}
use ssl_certificate_verifier.Types.{TlsCipherSupport}
use ssl_certificate_verifier.Render.Words.{accepted_cipher_count, pad, when}

abbrev flags : TlsCipherSupport → List Text
flags c =
    when c.insecure (codes "insecure" ∷ [])
    ++ (when c.forward_secrecy (codes "fs" ∷ [])
        ++ (when c.aead (codes "aead" ∷ []) ++ when c.cbc (codes "cbc" ∷ [])))

unfoldable pub cipher_line : TlsCipherSupport → Text
cipher_line c =
    codes "  "
    ++ (pad 7 c.version
        ++ (codes "  " ++ (pad 42 c.name ++ (codes "  " ++ join (flags c) (codes ",")))))

abbrev pub cipher_limit : ℕ
cipher_limit = 20

unfoldable pub more_line : ℕ → Text
more_line n = codes "  ... +" ++ (itoa n ++ codes " more accepted ciphers")

-- The loop, with the number of all accepted suites and of those shown so far; it gives the lines
-- and the number shown at its end.
unfoldable pub cipher_loop : ℕ → ℕ → List TlsCipherSupport → List Text × ℕ
cipher_loop accepted count [] = ([], count)
cipher_loop accepted count (c ∷ values) =
    let skipped = cipher_loop accepted count values in
    let shown = cipher_loop accepted (suc count) values in
    if not c.supported
    then skipped
    else if leb cipher_limit (suc count)
    then (cipher_line c ∷ more_line (accepted - suc count) ∷ [], suc count)
    else (cipher_line c ∷ shown.0, shown.1)

unfoldable pub cipher_lines : List TlsCipherSupport → List Text
cipher_lines values =
    let loop = cipher_loop (accepted_cipher_count values) 0 values in
    loop.0 ++ when (loop.1 == 0) (codes "  -" ∷ [])
