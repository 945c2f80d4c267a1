-- ===== src/Strings/HostPort.antt =====
-- `net.SplitHostPort` and `net.JoinHostPort`. The program reads of the first only whether it fails.
pub mod RoundTrip
use ssl_certificate_verifier.Base.{
  ℕ, suc, ◌+◌, ◌-◌, ◌≡◌, refl, Bool, true, false, List, [], ◌∷◌, ◌++◌, arith, ◌==◌, if◌then◌else◌,
  Option, none, some, Text, length, take, drop, get_or,
}
use ssl_certificate_verifier.Strings.Search.{index_byte, last_index_byte}

abbrev found : Option ℕ → Bool
found none = false
found (some i) = true

abbrev has : Text → ℕ → Bool
has s b = found (index_byte s b)

-- The part behind the check of the brackets: `j` and `k` are where `[` and `]` are looked for.
abbrev checked : Text → ℕ → Text → ℕ → ℕ → Option (Text × Text)
checked s i host j k =
    if has (drop j s) b'['
    then none
    else if has (drop k s) b']'
    then none
    else some (host, drop (i + 1) s)

abbrev bracketed : Text → ℕ → Option ℕ → Option (Text × Text)
bracketed s i none = none
bracketed s i (some end) =
    if end + 1 == length s
    then none
    else if end + 1 == i
    then checked s i (take (end - 1) (drop 1 s)) 1 (end + 1)
    else none

abbrev plain : Text → ℕ → Option (Text × Text)
plain s i = if has (take i s) b':' then none else checked s i (take i s) 0 0

-- At the last colon.
abbrev split_at : Text → Option ℕ → Option (Text × Text)
split_at s none = none
split_at s (some i) = if get_or s 0 0 == b'[' then bracketed s i (index_byte s b']') else plain s i

unfoldable pub split_host_port : Text → Option (Text × Text)
split_host_port s = split_at s (last_index_byte s b':')

unfoldable pub join_host_port : Text → Text → Text
join_host_port host port =
    if has host b':' then b'[' ∷ (host ++ (b']' ∷ b':' ∷ port)) else host ++ (b':' ∷ port)
