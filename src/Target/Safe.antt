-- ===== src/Target/Safe.antt =====
-- That `ParseTarget` stays within the bounds of its texts.
use ssl_certificate_verifier.Base.{
  ℕ, ◌+◌, ◌≡◌, ◌≢◌, refl, arith, not, ◌&&◌, ◌||◌, str_eq, [], ◌∷◌, ◌==◌, if◌then◌else◌, Text, codes,
  is_empty, Option, none, some, Outcome, ok, err, panic, Safely, Safely->>=, Safely-if, suc, ◌<◌,
  ◌≤◌, leb, length, slice,
}
use ssl_certificate_verifier.Base.Int.{ℤ}
use ssl_certificate_verifier.Strings.{
  trim_space, trim, contains, count_byte, last_index_byte, has_prefix, has_suffix, atoi, to_lower,
}
use ssl_certificate_verifier.Types.{Options, Target}
use ssl_certificate_verifier.Target.Port.{parse_port, out_of_range}
use ssl_certificate_verifier.Target.{
  Syntax, Url, Loose, split_host_port_loose, split_forms, split_bracketed, split_suffix,
  split_at_colon, url_port, url_target, parse_url_target, parse_bare_target, finish_target,
  parse_target, all_digits,
}

-- Without a demand on the value.
abbrev Any : (A : Type 0) → A → Type 0
Any A a = Unit

-- A byte that is not found does not occur.
last_index_byte-none : (s : Text) (b : ℕ) → last_index_byte s b ≡ none → count_byte s b ≡ 0
unfolding last_index_byte count_byte
last_index_byte-none [] b h = refl
last_index_byte-none (c ∷ s) b h = ground (arith, last_index_byte-none s b)

parse_port-Safely : (raw : Text) → Safely (Any ℤ) (parse_port raw)
unfolding parse_port
parse_port-Safely raw = Safely-if (Any ℤ) (out_of_range (atoi raw)) _ _ (λ _. tt) (λ _. tt)

-- A byte that is found stands within the text.
last_index_byte-lt : (s : Text) (b idx : ℕ) → last_index_byte s b ≡ some idx → idx < length s
unfolding last_index_byte
last_index_byte-lt [] b idx h = cc
last_index_byte-lt (c ∷ s) b idx h = at (last_index_byte s b) (last_index_byte-lt s b) h
  where
    at :
        (o : Option ℕ)
        → ((i : ℕ) → o ≡ some i → i < length s)
        → elim o [ some i ↦ some (suc i) | none ↦ if c == b then some 0 else none ] ≡ some idx
        → idx < suc (length s)
    at (some i) below e = ground (arith, below i refl, e)
    at none below e = ground (arith, e)

slice-Safely : (s : Text) (lo hi : ℕ) → lo ≤ hi → hi ≤ length s → Safely (Any Text) (slice s lo hi)
unfolding slice
slice-Safely s lo hi h k =
    Safely-if (Any Text) (leb lo hi && leb hi (length s)) _ _ (λ _. tt) (λ out. ground (arith, out))

split_at_colon-Safely :
    (s : Text) (o : Option ℕ)
    → o ≢ none
    → ((idx : ℕ) → o ≡ some idx → idx < length s)
    → Safely (Any Loose) (split_at_colon s o)
unfolding split_at_colon
split_at_colon-Safely s none h within = absurd (h refl)
split_at_colon-Safely s (some idx) h within =
    Safely->>= (Any Text) (Any Loose) (slice s (idx + 1) (length s)) _
      (slice-Safely s (idx + 1) (length s) (omega (arith, within idx refl)) (omega arith))
      λ suffix _.
        Safely-if (Any Loose) (not (is_empty suffix) && all_digits suffix) _ _
          (λ _. Safely->>= (Any ℤ) _ (parse_port suffix) _ (parse_port-Safely suffix) λ _ _.
            Safely->>= (Any Text) _ (slice s 0 idx) _
              (slice-Safely s 0 idx (omega arith) (omega (arith, within idx refl))) λ _ _. tt)
          (λ _. tt)

split_suffix-Safely : (s : Text) → Safely (Any Loose) (split_suffix s)
unfolding split_suffix
split_suffix-Safely s =
    Safely-if (Any Loose) (count_byte s b':' == 1) _ _
      (λ one.
        split_at_colon-Safely s _ (λ e. absurd (ground (arith, last_index_byte-none s b':' e, one)))
          (last_index_byte-lt s b':'))
      (λ _. tt)

split_bracketed-Safely : (syn : Syntax) (s : Text) → Safely (Any Loose) (split_bracketed syn s)
unfolding split_bracketed
split_bracketed-Safely syn s =
    Safely-if (Any Loose) (has_prefix s (codes "[") && has_suffix s (codes "]")) _ _
      (λ _.
        Safely-if (Any Loose) (not (syn.is_ip (trim s (b'[' ∷ b']' ∷ [])))) _ _ (λ _. tt) (λ _. tt))
      (λ _. split_suffix-Safely s)

split_forms-Safely :
    (syn : Syntax) (s : Text) (o : Option (Text × Text)) → Safely (Any Loose) (split_forms syn s o)
unfolding split_forms
split_forms-Safely syn s (some (h, p)) =
    Safely->>= (Any ℤ) _ (parse_port p) _ (parse_port-Safely p) λ _ _. tt
split_forms-Safely syn s none = split_bracketed-Safely syn s

split_host_port_loose-Safely :
    (syn : Syntax) (raw : Text) → Safely (Any Loose) (split_host_port_loose syn raw)
unfolding split_host_port_loose
split_host_port_loose-Safely syn raw =
    Safely-if (Any Loose) (is_empty (trim_space raw)) _ _ (λ _. tt)
      (λ _. split_forms-Safely syn (trim_space raw) _)

url_port-Safely : (u : Url) (scheme : Text) → Safely (Any ℤ) (url_port u scheme)
unfolding url_port
url_port-Safely u scheme =
    Safely-if (Any ℤ) (not (is_empty u.port)) _ _ (λ _. parse_port-Safely u.port) (λ _. tt)

url_target-Safely :
    (raw : Text) (r : Outcome Url) → r ≢ panic → Safely (Any Target) (url_target raw r)
unfolding url_target
url_target-Safely raw (err e) h = tt
url_target-Safely raw panic h = absurd (h refl)
url_target-Safely raw (ok u) h =
    let scheme = to_lower u.scheme in
    Safely-if (Any Target) (not (str_eq scheme (codes "http") || str_eq scheme (codes "https"))) _ _
      (λ _. tt)
      λ _.
        Safely-if (Any Target) (is_empty (trim_space u.hostname)) _ _ (λ _. tt)
          λ _. Safely->>= (Any ℤ) _ (url_port u scheme) _ (url_port-Safely u scheme) λ _ _. tt

-- `ParseTarget` gives a target or an error, and no index is out of range, if the URL parser does
-- not panic on the text.
pub parse_target-Safely :
    (syn : Syntax) (input : Text) (opt : Options)
    → syn.parse_url (trim_space input) ≢ panic
    → Safely (λ t. Unit) (parse_target syn input opt)
unfolding parse_target parse_url_target parse_bare_target finish_target
parse_target-Safely syn input opt h =
    let raw = trim_space input in
    Safely-if (Any Target) (is_empty raw) _ _ (λ _. tt)
      λ _.
        Safely->>= (Any Target) _
          (if contains raw (codes "://")
            then parse_url_target syn raw
            else parse_bare_target syn raw)
          _
          (Safely-if (Any Target) (contains raw (codes "://")) _ _ (λ _. url_target-Safely raw _ h)
            (λ _.
              Safely->>= (Any Loose) _ (split_host_port_loose syn raw) _
                (split_host_port_loose-Safely syn raw) λ _ _. tt))
          (λ t _. Safely-if (Any Target) (is_empty t.host) _ _ (λ _. tt) (λ _. tt))
