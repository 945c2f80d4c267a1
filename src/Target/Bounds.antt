-- ===== src/Target/Bounds.antt =====
-- What `ParseTarget` promises of an accepted target.
use ssl_certificate_verifier.Base.{
  length, slice, panic, err, ℕ, ◌+◌, ◌≤◌, ◌≡◌, ◌⊎◌, inl, inr, refl, arith, Bool, true, false, not,
  ◌&&◌, ◌||◌, [], ◌∷◌, ◌==◌, if◌then◌else◌, Text, codes, str_eq, str_eq_iff, is_empty, Option, none,
  some, Outcome, ok, err, panic, IfOk, IfOk->>=, IfOk-if, IfOk-ok,
}
use ssl_certificate_verifier.Base.Int.{ℤ, pos, ltb_ℤ}
use ssl_certificate_verifier.Strings.{
  trim_space, trim, to_lower, contains, count_byte, last_index_byte, has_prefix, has_suffix,
  split_host_port, join_host_port, itoa_ℤ,
}
use ssl_certificate_verifier.Types.{Options, Target}
use ssl_certificate_verifier.Target.Port.{parse_port, parse_port_bounds}
use ssl_certificate_verifier.Target.{
  Syntax, Url, Loose, split_host_port_loose, split_forms, split_bracketed, split_suffix,
  split_at_colon, url_port, url_target, parse_url_target, parse_bare_target, finish_target,
  parse_target, all_digits,
}

-- A port that the text of a target can name.
abbrev pub IsPort : ℤ → Type 0
IsPort p = (n : ℕ) × (p ≡ pos n) × (1 ≤ n) × (n ≤ 65535)

abbrev pub IsScheme : Text → Type 0
IsScheme s = (s ≡ codes "http") ⊎ (s ≡ codes "https")

parse_port-IfOk : (raw : Text) → IfOk IsPort (parse_port raw)
parse_port-IfOk raw = at (parse_port raw) (parse_port_bounds raw)
  where
    at : (m : Outcome ℤ) → ((p : ℤ) → m ≡ ok p → IsPort p) → IfOk IsPort m
    at (ok p) h = h p refl
    at (err e) h = tt
    at panic h = tt

-- The port of the result, if it has one.
abbrev LoosePort : Loose → Type 0
LoosePort l = (l.has_port ≡ true) → IsPort l.port

-- Nothing is asked of a text.
abbrev AnyText : Text → Type 0
AnyText s = Unit

any_text : (m : Outcome Text) → IfOk AnyText m
any_text (ok s) = tt
any_text (err e) = tt
any_text panic = tt

split_at_colon-IfOk : (s : Text) (o : Option ℕ) → IfOk LoosePort (split_at_colon s o)
unfolding split_at_colon
split_at_colon-IfOk s none = tt
split_at_colon-IfOk s (some idx) =
    IfOk->>= AnyText LoosePort (slice s (idx + 1) (length s)) _ (any_text _) λ suffix _.
      IfOk-if _ (not (is_empty suffix) && all_digits suffix) _ _
        (λ _.
          IfOk->>= _ _ (parse_port suffix) _ (parse_port-IfOk suffix)
            λ p h. IfOk->>= AnyText LoosePort (slice s 0 idx) _ (any_text _) λ host _ _. h)
        (λ _ no_port. cc)

split_suffix-IfOk : (s : Text) → IfOk LoosePort (split_suffix s)
unfolding split_suffix
split_suffix-IfOk s =
    IfOk-if _ (count_byte s b':' == 1) _ _ (λ _. split_at_colon-IfOk s (last_index_byte s b':'))
      (λ _ no_port. cc)

split_bracketed-IfOk : (syn : Syntax) (s : Text) → IfOk LoosePort (split_bracketed syn s)
unfolding split_bracketed
split_bracketed-IfOk syn s =
    IfOk-if _ (has_prefix s (codes "[") && has_suffix s (codes "]")) _ _
      (λ _. IfOk-if _ (not (syn.is_ip (trim s (b'[' ∷ b']' ∷ [])))) _ _ (λ _. tt) (λ _ no_port. cc))
      (λ _. split_suffix-IfOk s)

split_forms-IfOk :
    (syn : Syntax) (s : Text) (o : Option (Text × Text)) → IfOk LoosePort (split_forms syn s o)
unfolding split_forms
split_forms-IfOk syn s (some (h, p)) =
    IfOk->>= _ _ (parse_port p) _ (parse_port-IfOk p) λ port is_port _. is_port
split_forms-IfOk syn s none = split_bracketed-IfOk syn s

split_host_port_loose-IfOk :
    (syn : Syntax) (raw : Text) → IfOk LoosePort (split_host_port_loose syn raw)
unfolding split_host_port_loose
split_host_port_loose-IfOk syn raw =
    IfOk-if _ (is_empty (trim_space raw)) _ _ (λ _. tt)
      (λ _. split_forms-IfOk syn (trim_space raw) (split_host_port (trim_space raw)))

-- What both branches give to the end of `ParseTarget`.
abbrev IsStart : Text → Target → Type 0
IsStart raw t = (t.input ≡ raw) × IsScheme t.scheme × IsPort t.port

IsPort-443 : IsPort (pos 443)
IsPort-443 = (443, refl, omega arith, omega arith)

parse_bare_target-IfOk :
    (syn : Syntax) (raw : Text) → IfOk (IsStart raw) (parse_bare_target syn raw)
unfolding parse_bare_target
parse_bare_target-IfOk syn raw =
    IfOk->>= _ _ (split_host_port_loose syn raw) _ (split_host_port_loose-IfOk syn raw)
      λ l h. (refl, inr refl, chosen l.has_port l.port h)
  where
    chosen : (b : Bool) (p : ℤ) → ((b ≡ true) → IsPort p) → IsPort (if b then p else pos 443)
    chosen true p h = h refl
    chosen false p h = IsPort-443

url_port-IfOk : (u : Url) (scheme : Text) → IfOk IsPort (url_port u scheme)
unfolding url_port
url_port-IfOk u scheme =
    IfOk-if _ (not (is_empty u.port)) _ _ (λ _. parse_port-IfOk u.port)
      (λ _. default (str_eq scheme (codes "http")))
  where
    default : (b : Bool) → IsPort (if b then pos 80 else pos 443)
    default true = (80, refl, omega arith, omega arith)
    default false = IsPort-443

url_target-IfOk : (raw : Text) (r : Outcome Url) → IfOk (IsStart raw) (url_target raw r)
unfolding url_target
url_target-IfOk raw (err e) = tt
url_target-IfOk raw panic = tt
url_target-IfOk raw (ok u) =
    let scheme = to_lower u.scheme in
    let known = str_eq scheme (codes "http") || str_eq scheme (codes "https") in
    IfOk-if _ (not known) _ _ (λ _. tt)
      λ supported.
        IfOk-if _ (is_empty (trim_space u.hostname)) _ _ (λ _. tt)
          λ _. IfOk->>= _ _ (url_port u scheme) _ (url_port-IfOk u scheme) λ p is_port. (
            refl,
            ground (
              arith,
              supported,
              str_eq_iff scheme (codes "http"),
              str_eq_iff scheme (codes "https"),
            ),
            is_port,
          )

parse_url_target-IfOk : (syn : Syntax) (raw : Text) → IfOk (IsStart raw) (parse_url_target syn raw)
unfolding parse_url_target
parse_url_target-IfOk syn raw = url_target-IfOk raw (syn.parse_url raw)

-- An accepted target.
pub record IsTarget (syn : Syntax) (input : Text) (opt : Options) (t : Target) : Type 0 where
  pub input_is : t.input ≡ trim_space input
  pub scheme_is : IsScheme t.scheme
  pub port_is :
      (ltb_ℤ (pos 0) opt.port ≡ true) × (t.port ≡ opt.port)
      ⊎ (ltb_ℤ (pos 0) opt.port ≡ false) × IsPort t.port
  pub is_ip_is : t.is_ip ≡ syn.is_ip t.host
  pub address_is : t.address ≡ join_host_port t.host (itoa_ℤ t.port)

finish_target-IfOk :
    (syn : Syntax) (input : Text) (opt : Options) (t : Target)
    → IsStart (trim_space input) t
    → IfOk (IsTarget syn input opt) (finish_target syn opt t)
unfolding finish_target
finish_target-IfOk syn input opt t (is_input, is_scheme, is_port) =
    IfOk-if _ (is_empty t.host) _ _ (λ _. tt)
      λ _. record {
        input_is = is_input;
        scheme_is = is_scheme;
        port_is = overridden (ltb_ℤ (pos 0) opt.port);
        is_ip_is = refl;
        address_is = refl;
      }
  where
    overridden :
        (b : Bool)
        → (b ≡ true) × ((if b then opt.port else t.port) ≡ opt.port)
          ⊎ (b ≡ false) × IsPort (if b then opt.port else t.port)
    overridden true = inl (refl, refl)
    overridden false = inr (refl, is_port)

pub parse_target-IfOk :
    (syn : Syntax) (input : Text) (opt : Options)
    → IfOk (IsTarget syn input opt) (parse_target syn input opt)
unfolding parse_target
parse_target-IfOk syn input opt =
    let raw = trim_space input in
    IfOk-if _ (is_empty raw) _ _ (λ _. tt)
      λ _.
        IfOk->>= _ _
          (if contains raw (codes "://")
            then parse_url_target syn raw
            else parse_bare_target syn raw)
          _
          (IfOk-if _ (contains raw (codes "://")) _ _ (λ _. parse_url_target-IfOk syn raw)
            (λ _. parse_bare_target-IfOk syn raw))
          (finish_target-IfOk syn input opt)

-- An accepted target has the scheme http or https, the port override if that is positive and else a
-- port from 1 to 65535, the address that joins its host and port, and the input without white
-- space around it; it counts as an IP address exactly if its host parses as one.
pub parse_target_sound :
    (syn : Syntax) (input : Text) (opt : Options) (t : Target)
    → parse_target syn input opt ≡ ok t
    → IsTarget syn input opt t
parse_target_sound syn input opt t = IfOk-ok _ _ t (parse_target-IfOk syn input opt)
