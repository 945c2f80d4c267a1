-- ===== src/Strings/HostPort/RoundTrip.antt =====
-- `net.SplitHostPort` undoes `net.JoinHostPort`.
use ssl_certificate_verifier.Base.{
  ℕ, suc, ◌+◌, ◌-◌, ◌≡◌, ◌≢◌, inl, inr, refl, ◌∙◌, arith, false, [], ◌∷◌, ◌++◌, append_assoc, ◌==◌,
  some, Text, length, length-append, drop, take-append, drop-shift, is_empty, get_or, All,
  All-append, Bool-cases,
}
use ssl_certificate_verifier.Strings.Search.{
  index_byte, last_index_byte, Lacks, index_byte-Lacks, index_byte-append, last_index_byte-append,
}
use ssl_certificate_verifier.Strings.HostPort.{has, split_host_port, join_host_port}

-- A text with no bracket, as a host is, and one with no colon either, as a port is.
abbrev pub IsHostText : Text → Type 0
IsHostText s = Lacks b'[' s × Lacks b']' s

abbrev pub IsPortText : Text → Type 0
IsPortText s = Lacks b'[' s × Lacks b']' s × Lacks b':' s

drop-shift_one : (s : Text) (c : ℕ) (t : Text) → drop (length s + 1) (s ++ (c ∷ t)) ≡ t
drop-shift_one s c t = drop-shift s (c ∷ t) 1

Lacks-has : (s : Text) (b : ℕ) → Lacks b s → has s b ≡ false
Lacks-has s b h = rw (index_byte-Lacks s b h)

drop_two :
    (n : ℕ) (behind host : Text)
    → length host ≡ n
    → drop (n + 2) (b'[' ∷ (host ++ behind)) ≡ drop 1 behind
drop_two n behind host e =
    let k : n + 2 ≡ suc (length host + 1) = omega arith in rw k (drop-shift host behind 1)

drop_three :
    (n : ℕ) (behind host : Text)
    → length host ≡ n
    → drop (n + 2 + 1) (b'[' ∷ (host ++ behind)) ≡ drop 2 behind
drop_three n behind host e =
    let k : n + 2 + 1 ≡ suc (length host + 2) = omega arith in rw k (drop-shift host behind 2)

module _ (host port : Text) (h : IsHostText host) (p : IsPortText port) where
  abbrev in_brackets : Text
  in_brackets = b'[' ∷ (host ++ (b']' ∷ b':' ∷ port))

  split_in_brackets : split_host_port in_brackets ≡ some (host, port)
  unfolding split_host_port
  split_in_brackets =
      let n = length host in
      let behind : Text = b']' ∷ b':' ∷ port in
      let front : Text = b'[' ∷ host in
      let upto : Text = front ++ b']' ∷ [] in
      let shape : upto ++ (b':' ∷ port) ≡ in_brackets =
        append_assoc front (b']' ∷ []) (b':' ∷ port) in
      let last : last_index_byte in_brackets b':' ≡ some (length upto) =
        rw (← shape) (last_index_byte-append upto port b':' p.2) in
      let end : index_byte in_brackets b']' ≡ some (suc n) =
        index_byte-append front (b':' ∷ port) b']' (refl, h.1) in
      let i : length (host ++ b']' ∷ []) ≡ n + 1 = length-append host (b']' ∷ []) ∙ omega arith in
      let c1 : suc n + 1 ≡ n + 2 = omega arith in
      let c2 : suc (n + 1) ≡ n + 2 = omega arith in
      let c3 : suc n - 1 ≡ n = omega arith in
      let rest : drop (n + 2) in_brackets ≡ b':' ∷ port = drop_two n behind host refl in
      let tail : drop (n + 2 + 1) in_brackets ≡ port = drop_three n behind host refl in
      let no_open : has (host ++ behind) b'[' ≡ false =
        Lacks-has _ b'[' (All-append _ host behind h.0 (refl, (refl, p.0))) in
      let no_close : has (b':' ∷ port) b']' ≡ false = Lacks-has _ b']' (refl, p.1) in
      rw (last, end, i, c1, c2, c3, take-append host behind)
        (ground (arith, length-append host behind, rest, tail, no_open, no_close))

  split_plain :
      host ≢ [] → Lacks b':' host → split_host_port (host ++ (b':' ∷ port)) ≡ some (host, port)
  unfolding split_host_port
  split_plain ne no_colon =
      let n = length host in
      let s : Text = host ++ (b':' ∷ port) in
      let last = last_index_byte-append host port b':' p.2 in
      let no_open : has s b'[' ≡ false =
        Lacks-has s b'[' (All-append _ host (b':' ∷ port) h.0 (refl, p.0)) in
      let no_close : has s b']' ≡ false =
        Lacks-has s b']' (All-append _ host (b':' ∷ port) h.1 (refl, p.1)) in
      let head : (get_or s 0 0 == b'[') ≡ false = first host ne h.0 in
      rw (
        last,
        head,
        take-append host (b':' ∷ port),
        Lacks-has host b':' no_colon,
        no_open,
        no_close,
        drop-shift_one host b':' port,
      )
    where
      first :
          (host : Text)
          → host ≢ []
          → Lacks b'[' host
          → (get_or (host ++ (b':' ∷ port)) 0 0 == b'[') ≡ false
      first [] ne l = absurd (ne refl)
      first (c ∷ host) ne l = l.0

has-Lacks : (s : Text) (b : ℕ) → has s b ≡ false → Lacks b s
unfolding index_byte
has-Lacks [] b h = tt
has-Lacks (c ∷ s) b h = elim (Bool-cases (c == b)) [
  | inl here ↦ cc (h, here)
  | inr later ↦ (later, has-Lacks s b (ground arith))
]

-- A host and a port with no bracket, and no colon in the port, are read back from their joined
-- form.
pub split_host_port-join :
    (host port : Text)
    → host ≢ []
    → IsHostText host
    → IsPortText port
    → split_host_port (join_host_port host port) ≡ some (host, port)
unfolding join_host_port
split_host_port-join host port ne h p = elim (Bool-cases (has host b':')) [
  | inl colon ↦ rw colon (split_in_brackets host port h p)
  | inr no_colon ↦ rw no_colon (split_plain host port h p ne (has-Lacks host b':' no_colon))
]

pub join_host_port-All :
    (P : ℕ → Type 0) (host port : Text)
    → P b'['
    → P b']'
    → P b':'
    → All P host
    → All P port
    → All P (join_host_port host port)
unfolding join_host_port
join_host_port-All P host port l r c h p = elim (Bool-cases (has host b':')) [
  | inl colon ↦ rw colon (l, All-append P host (b']' ∷ b':' ∷ port) h (r, (c, p)))
  | inr no_colon ↦ rw no_colon (All-append P host (b':' ∷ port) h (c, p))
]

pub join_host_port-ne-nil : (host port : Text) → is_empty (join_host_port host port) ≡ false
unfolding join_host_port
join_host_port-ne-nil [] port = ground arith
join_host_port-ne-nil (c ∷ host) port = ground arith
