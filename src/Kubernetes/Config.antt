-- ===== src/Kubernetes/Config.antt =====
-- internal/checker/kubernetes.go: `parseKubeconfig` and `cleanYAMLScalar`.
pub mod First
pub mod Safe
pub mod RoundTrip
use ssl_certificate_verifier.Base.{
  Bool, true, false, not, ◌&&◌, ◌||◌, List, [], ◌∷◌, ◌++◌, if◌then◌else◌, Text, codes, is_empty,
  take, Option, none, some, ◌⊎◌, inl, inr, Outcome, ok, err, panic, ◌>>=◌, ℕ,
}
use ssl_certificate_verifier.Strings.{trim_space, trim, trim_prefix, has_prefix, index_byte, split}
use ssl_certificate_verifier.Types.{Bytes}
use ssl_certificate_verifier.Kubernetes.{Files}

pub record KubeconfigInfo : Type 0 where
  pub server : Text
  pub ca_file : Text
  pub ca_data_pem : Bytes

abbrev pub no_info : KubeconfigInfo
no_info = record { server = []; ca_file = []; ca_data_pem = [] }

-- The quotes of YAML.
abbrev quotes : Text
quotes = b'"' ∷ b'\'' ∷ []

-- The text before a comment, trimmed, if there is one.
unfoldable pub before_comment : Text → Option ℕ → Text
before_comment value none = value
before_comment value (some idx) = trim_space (take idx value)

unfoldable pub clean_yaml_scalar : Text → Text
clean_yaml_scalar raw =
    let value = trim_space raw in
    if is_empty value
    then []
    else if has_prefix value (b'"' ∷ []) || has_prefix value (b'\'' ∷ [])
    then trim value quotes
    else trim (before_comment value (index_byte value b'#')) quotes

-- The scalar behind the key at the head of a line.
unfoldable pub scalar : Text → Text → Text
scalar key trimmed = clean_yaml_scalar (trim_space (trim_prefix trimmed key))

abbrev pub server_key : Text
server_key = codes "server:"

abbrev pub ca_key : Text
ca_key = codes "certificate-authority:"

abbrev pub ca_data_key : Text
ca_data_key = codes "certificate-authority-data:"

-- A relative path is taken from the directory of the file.
unfoldable pub resolve_ca_file : Files → Text → Text → Text
resolve_ca_file files base_dir ca_file =
    if not (is_empty ca_file) && not (files.is_abs ca_file)
    then files.join base_dir ca_file
    else ca_file

abbrev pub decoded : KubeconfigInfo → Text ⊎ Bytes → Outcome KubeconfigInfo
decoded info (inl e) = err (codes "decode certificate-authority-data: " ++ e)
decoded info (inr pem) = ok (record info { ca_data_pem = pem })

module _ (files : Files) (decode_base64 : Text → Text ⊎ Bytes) (base_dir : Text) where
  -- The `switch` on a trimmed line.
  abbrev pub read_trimmed : KubeconfigInfo → Text → Outcome KubeconfigInfo
  read_trimmed info trimmed =
      if has_prefix trimmed server_key && is_empty info.server
      then ok (record info { server = scalar server_key trimmed })
      else if has_prefix trimmed ca_key && is_empty info.ca_file
      then ok (record info { ca_file = resolve_ca_file files base_dir (scalar ca_key trimmed) })
      else if has_prefix trimmed ca_data_key && is_empty info.ca_data_pem
      then decoded info (decode_base64 (scalar ca_data_key trimmed))
      else ok info

  unfoldable pub read_lines : KubeconfigInfo → List Text → Outcome KubeconfigInfo
  read_lines info [] = ok info
  read_lines info (line ∷ lines) =
      read_trimmed info (trim_space line) >>= λ next. read_lines next lines

-- `os.ReadFile` has failed, or given the bytes.
abbrev pub parsed : Files → (Text → Text ⊎ Bytes) → Text → Text ⊎ Bytes → Outcome KubeconfigInfo
parsed files decode_base64 path (inl e) = err e
parsed files decode_base64 path (inr bytes) =
    read_lines files decode_base64 (files.dir path) no_info (split bytes b'\n')

unfoldable pub parse_kubeconfig : Files → (Text → Text ⊎ Bytes) → Text → Outcome KubeconfigInfo
parse_kubeconfig files decode_base64 path = parsed files decode_base64 path (files.read_file path)
