-- ===== src/Kubernetes/Config/RoundTrip.antt =====
-- Reading back the cluster of a kubeconfig.
use ssl_certificate_verifier.Base.{
  ℕ, ◌≡◌, false, List, [], ◌∷◌, ◌++◌, ◌==◌, Text, codes, is_empty, ◌⊎◌, All,
}
use ssl_certificate_verifier.Strings.{trim_space, has_prefix, is_space, Lacks, join}
use ssl_certificate_verifier.Types.{Bytes}
use ssl_certificate_verifier.Kubernetes.{Files}
use ssl_certificate_verifier.Kubernetes.Config.{
  KubeconfigInfo, server_key, ca_key, ca_data_key, no_info,
}

-- No white space, no quote, no sharp.
abbrev pub IsPlainByte : ℕ → Type 0
IsPlainByte c =
    (is_space c ≡ false) × ((c == b'"') ≡ false) × ((c == b'\'') ≡ false) × ((c == b'#') ≡ false)

-- A text that YAML writes without quotes.
abbrev pub IsPlainText : Text → Type 0
IsPlainText s = (is_empty s ≡ false) × All IsPlainByte s

-- A line of the file: four blanks, the key, a blank and the value.
unfoldable pub yaml_line : Text → Text → Text
yaml_line key value = codes "    " ++ (key ++ (b' ' ∷ value))

-- A line that starts with none of the three keys that are read.
abbrev pub IsOther : Text → Type 0
IsOther line =
    Lacks b'\n' line
    × (has_prefix (trim_space line) server_key ≡ false)
    × (has_prefix (trim_space line) ca_key ≡ false)
    × (has_prefix (trim_space line) ca_data_key ≡ false)

-- A file that names one cluster between other lines.
abbrev cluster_lines : Text → Text → List Text → List Text
cluster_lines server encoded after =
    yaml_line ca_data_key encoded ∷ yaml_line server_key server ∷ after

unfoldable pub write_kubeconfig : Text → List Text → Text → Text → List Text → Text
write_kubeconfig first before server encoded after =
    join (first ∷ (before ++ cluster_lines server encoded after)) (b'\n' ∷ [])

module _ (files : Files) (decode_base64 : Text → Text ⊎ Bytes) (base_dir : Text) where
  abbrev with_pem : Bytes → KubeconfigInfo
  with_pem pem = record no_info { ca_data_pem = pem }
