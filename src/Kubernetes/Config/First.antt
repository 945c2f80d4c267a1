-- ===== src/Kubernetes/Config/First.antt =====
-- `parseKubeconfig` against three separate searches of the lines.
use ssl_certificate_verifier.Base.{
  ℕ, ◌≡◌, refl, ap, ◌∙◌, arith, true, false, List, [], ◌∷◌, ◌++◌, ◌==◌, if◌then◌else◌, Text, codes,
  is_empty, ◌⊎◌, inl, inr, Outcome, ok, err, panic, ◌>>=◌, bind_eq, Bool-cases,
}
use ssl_certificate_verifier.Strings.{trim_space, has_prefix, split}
use ssl_certificate_verifier.Types.{Bytes}
use ssl_certificate_verifier.Kubernetes.{Files}
use ssl_certificate_verifier.Kubernetes.Config.{
  KubeconfigInfo, no_info, scalar, server_key, ca_key, ca_data_key, resolve_ca_file, decoded,
  read_trimmed, read_lines, parsed, parse_kubeconfig,
}

-- The first line that gives a text, and the text.
unfoldable pub first_text : (Text → Text) → List Text → Text
first_text f [] = []
first_text f (line ∷ lines) =
    let later = first_text f lines in if is_empty (f line) then later else f line

-- The first line that gives bytes, or an error if a line before it gives one.
unfoldable pub first_bytes : (Text → Outcome Bytes) → List Text → Outcome Bytes
first_bytes f [] = ok []
first_bytes f (line ∷ lines) =
    let later = first_bytes f lines in f line >>= λ pem. if is_empty pem then later else ok pem

abbrev pem_of : Text ⊎ Bytes → Outcome Bytes
pem_of (inl e) = err (codes "decode certificate-authority-data: " ++ e)
pem_of (inr pem) = ok pem

-- What is known, or else what a line gives.
abbrev or_text : Text → Text → Text
or_text v x = if is_empty v then x else v

abbrev or_bytes : Bytes → Outcome Bytes → Outcome Bytes
or_bytes v x = if is_empty v then x else ok v

or_text-nil : (v : Text) → or_text v [] ≡ v
or_text-nil [] = refl
or_text-nil (c ∷ v) = refl

or_bytes-nil : (v : Bytes) → or_bytes v (ok []) ≡ ok v
or_bytes-nil [] = refl
or_bytes-nil (c ∷ v) = refl

or_text-first :
    (v x : Text) (f : Text → Text) (line : Text) (lines : List Text)
    → f line ≡ x
    → or_text (or_text v x) (first_text f lines) ≡ or_text v (first_text f (line ∷ lines))
unfolding first_text
or_text-first [] x f line lines h = rw h refl
or_text-first (c ∷ v) x f line lines h = refl

-- Two texts that differ at a byte are not both prefixes.
prefixes_agree :
    (s p u v : Text) (a b : ℕ)
    → (a == b) ≡ false
    → has_prefix s (p ++ (a ∷ u)) ≡ true
    → has_prefix s (p ++ (b ∷ v)) ≡ false
unfolding has_prefix
prefixes_agree [] [] u v a b differ h = cc
prefixes_agree [] (x ∷ p) u v a b differ h = cc
prefixes_agree (c ∷ s) [] u v a b differ h = ground arith
prefixes_agree (c ∷ s) (x ∷ p) u v a b differ h = ground (arith, prefixes_agree s p u v a b differ)

server_excludes_ca : (t : Text) → has_prefix t server_key ≡ true → has_prefix t ca_key ≡ false
unfolding codes
server_excludes_ca t h = prefixes_agree t [] _ _ b's' b'c' refl h

server_excludes_data :
    (t : Text) → has_prefix t server_key ≡ true → has_prefix t ca_data_key ≡ false
unfolding codes
server_excludes_data t h = prefixes_agree t [] _ _ b's' b'c' refl h

ca_excludes_data : (t : Text) → has_prefix t ca_key ≡ true → has_prefix t ca_data_key ≡ false
unfolding codes
ca_excludes_data t h =
    prefixes_agree t (codes "certificate-authority") [] (codes "data:") b':' b'-' refl h

module _ (files : Files) (decode_base64 : Text → Text ⊎ Bytes) (base_dir : Text) where
  -- What a trimmed line gives each of the three searches.
  abbrev server_at : Text → Text
  server_at t = if has_prefix t server_key then scalar server_key t else []

  abbrev ca_at : Text → Text
  ca_at t = if has_prefix t ca_key then resolve_ca_file files base_dir (scalar ca_key t) else []

  abbrev data_at : Text → Outcome Bytes
  data_at t =
      if has_prefix t ca_data_key then pem_of (decode_base64 (scalar ca_data_key t)) else ok []

  abbrev info_of : Text → Text → Bytes → KubeconfigInfo
  info_of s c d = record { server = s; ca_file = c; ca_data_pem = d }

  -- One line, by the three searches.
  abbrev step : Text → Text → Bytes → Text → Outcome KubeconfigInfo
  step s c d t = or_bytes d (data_at t) >>= λ pem.
      ok (info_of (or_text s (server_at t)) (or_text c (ca_at t)) pem)

  set_server :
      (s c : Text) (d : Bytes) (x : Text)
      → (if is_empty s then ok (info_of x c d) else ok (info_of s c d))
        ≡ (or_bytes d (ok []) >>= λ pem. ok (info_of (or_text s x) (or_text c []) pem))
  set_server [] c d x = rw (or_bytes-nil, or_text-nil) refl
  set_server (a ∷ s) c d x = rw (or_bytes-nil, or_text-nil) refl

  set_ca :
      (s c : Text) (d : Bytes) (x : Text)
      → (if is_empty c then ok (info_of s x d) else ok (info_of s c d))
        ≡ (or_bytes d (ok []) >>= λ pem. ok (info_of (or_text s []) (or_text c x) pem))
  set_ca s [] d x = rw (or_bytes-nil, or_text-nil) refl
  set_ca s (a ∷ c) d x = rw (or_bytes-nil, or_text-nil) refl

  set_data :
      (s c : Text) (d : Bytes) (o : Text ⊎ Bytes)
      → (if is_empty d then decoded (info_of s c d) o else ok (info_of s c d))
        ≡ (or_bytes d (pem_of o) >>= λ pem. ok (info_of (or_text s []) (or_text c []) pem))
  set_data s c [] (inl e) = refl
  set_data s c [] (inr pem) = rw (or_text-nil s, or_text-nil c) refl
  set_data s c (a ∷ d) o = rw (or_text-nil s, or_text-nil c) refl

  keep :
      (s c : Text) (d : Bytes)
      → ok (info_of s c d)
        ≡ (or_bytes d (ok []) >>= λ pem. ok (info_of (or_text s []) (or_text c []) pem))
  keep s c d = rw (or_bytes-nil, or_text-nil s, or_text-nil c) refl

  read_trimmed-step :
      (s c : Text) (d : Bytes) (t : Text)
      → read_trimmed files decode_base64 base_dir (info_of s c d) t ≡ step s c d t
  read_trimmed-step s c d t = elim (Bool-cases (has_prefix t server_key)) [
    | inl is_server ↦
        rw (is_server, server_excludes_ca t is_server, server_excludes_data t is_server)
          (set_server s c d _)
    | inr no_server ↦ elim (Bool-cases (has_prefix t ca_key)) [
      | inl is_ca ↦ rw (no_server, is_ca, ca_excludes_data t is_ca) (set_ca s c d _)
      | inr no_ca ↦ elim (Bool-cases (has_prefix t ca_data_key)) [
        | inl is_data ↦ rw (no_server, no_ca, is_data) (set_data s c d _)
        | inr no_data ↦ rw (no_server, no_ca, no_data) (keep s c d)
      ]
    ]
  ]

  -- The three searches of all lines, beside what is known.
  abbrev searched : Text → Text → Bytes → List Text → Outcome KubeconfigInfo
  searched s c d lines =
      or_bytes d (first_bytes (λ line. data_at (trim_space line)) lines) >>= λ pem. ok (
        info_of (or_text s (first_text (λ line. server_at (trim_space line)) lines))
          (or_text c (first_text (λ line. ca_at (trim_space line)) lines)) pem)

  abbrev searched_from : List Text → KubeconfigInfo → Outcome KubeconfigInfo
  searched_from lines n = searched n.server n.ca_file n.ca_data_pem lines

  advance :
      (s c : Text) (d : Bytes) (line : Text) (lines : List Text) (o : Outcome Bytes)
      → data_at (trim_space line) ≡ o
      → (step s c d (trim_space line) >>= searched_from lines) ≡ searched s c d (line ∷ lines)
  unfolding first_bytes
  advance s c (a ∷ d) line lines o e =
      rw
        (
          or_text-first s _ (λ l. server_at (trim_space l)) line lines refl,
          or_text-first c _ (λ l. ca_at (trim_space l)) line lines refl,
        )
        refl
  advance s c [] line lines (err message) e = rw e refl
  advance s c [] line lines panic e = rw e refl
  advance s c [] line lines (ok pem) e =
      rw
        (
          e,
          or_text-first s _ (λ l. server_at (trim_space l)) line lines refl,
          or_text-first c _ (λ l. ca_at (trim_space l)) line lines refl,
        )
        refl

  read_lines-searched :
      (lines : List Text) (info : KubeconfigInfo)
      → read_lines files decode_base64 base_dir info lines ≡ searched_from lines info
  unfolding read_lines first_text first_bytes
  read_lines-searched [] info = keep info.server info.ca_file info.ca_data_pem
  read_lines-searched (line ∷ lines) info =
      bind_eq _ _ _ (read_lines-searched lines)
      ∙ ap (λ m. m >>= searched_from lines)
          (read_trimmed-step info.server info.ca_file info.ca_data_pem (trim_space line))
      ∙ advance info.server info.ca_file info.ca_data_pem line lines _ refl

-- The specification: an unreadable file is an error; else the first line of each key that gives a
-- value gives the field.
abbrev find_in : Files → (Text → Text ⊎ Bytes) → Text → Text ⊎ Bytes → Outcome KubeconfigInfo
find_in files decode_base64 path (inl e) = err e
find_in files decode_base64 path (inr bytes) =
    let lines = split bytes b'\n' in
    first_bytes (λ line. data_at files decode_base64 [] (trim_space line)) lines >>= λ pem.
    ok (record {
      server = first_text (λ line. server_at files decode_base64 [] (trim_space line)) lines;
      ca_file =
          first_text (λ line. ca_at files decode_base64 (files.dir path) (trim_space line)) lines;
      ca_data_pem = pem;
    })

unfoldable pub find_fields : Files → (Text → Text ⊎ Bytes) → Text → Outcome KubeconfigInfo
find_fields files decode_base64 path = find_in files decode_base64 path (files.read_file path)

-- `parseKubeconfig` finds the server, the file and the data of the authority as three separate
-- searches do: each is the first value that is not empty of a line with its key, a relative file is
-- taken from the directory of the path, and it fails if the file cannot be read, or if data before
-- the first that is not empty cannot be decoded.
pub parse_kubeconfig-first :
    (files : Files) (decode_base64 : Text → Text ⊎ Bytes) (path : Text)
    → parse_kubeconfig files decode_base64 path ≡ find_fields files decode_base64 path
unfolding parse_kubeconfig find_fields
parse_kubeconfig-first files decode_base64 path = at (files.read_file path)
  where
    at : (o : Text ⊎ Bytes) → parsed files decode_base64 path o ≡ find_in files decode_base64 path o
    at (inl e) = refl
    at (inr bytes) =
        read_lines-searched files decode_base64 (files.dir path) (split bytes b'\n') no_info
