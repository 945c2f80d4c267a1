-- ===== src/Kubernetes/Config/Safe.antt =====
-- That reading a kubeconfig ends with its fields or an error.
use ssl_certificate_verifier.Base.{
  ◌&&◌, List, [], ◌∷◌, Text, is_empty, ◌⊎◌, inl, inr, Safely, Safely->>=, Safely-if,
}
use ssl_certificate_verifier.Strings.{trim_space, has_prefix, split}
use ssl_certificate_verifier.Types.{Bytes}
use ssl_certificate_verifier.Kubernetes.{Files}
use ssl_certificate_verifier.Kubernetes.Config.{
  KubeconfigInfo, no_info, server_key, ca_key, ca_data_key, decoded, read_trimmed, read_lines,
  parsed, parse_kubeconfig,
}

-- Nothing is asked of the fields.
abbrev AnyInfo : KubeconfigInfo → Type 0
AnyInfo info = Unit

decoded-Safely : (info : KubeconfigInfo) (o : Text ⊎ Bytes) → Safely AnyInfo (decoded info o)
decoded-Safely info (inl e) = tt
decoded-Safely info (inr pem) = tt

module _ (files : Files) (decode_base64 : Text → Text ⊎ Bytes) where
  read_trimmed-Safely :
      (base_dir : Text) (info : KubeconfigInfo) (t : Text)
      → Safely AnyInfo (read_trimmed files decode_base64 base_dir info t)
  read_trimmed-Safely base_dir info t =
      Safely-if AnyInfo (has_prefix t server_key && is_empty info.server) _ _ (λ _. tt)
        λ _.
          Safely-if AnyInfo (has_prefix t ca_key && is_empty info.ca_file) _ _ (λ _. tt)
            λ _.
              Safely-if AnyInfo (has_prefix t ca_data_key && is_empty info.ca_data_pem) _ _
                (λ _. decoded-Safely info _) (λ _. tt)

  read_lines-Safely :
      (base_dir : Text) (info : KubeconfigInfo) (lines : List Text)
      → Safely AnyInfo (read_lines files decode_base64 base_dir info lines)
  unfolding read_lines
  read_lines-Safely base_dir info [] = tt
  read_lines-Safely base_dir info (line ∷ lines) =
      Safely->>= AnyInfo AnyInfo (read_trimmed files decode_base64 base_dir info (trim_space line))
        _ (read_trimmed-Safely base_dir info (trim_space line))
        λ next _. read_lines-Safely base_dir next lines

  pub parse_kubeconfig-Safely :
      (path : Text) → Safely AnyInfo (parse_kubeconfig files decode_base64 path)
  unfolding parse_kubeconfig
  parse_kubeconfig-Safely path = at (files.read_file path)
    where
      at : (o : Text ⊎ Bytes) → Safely AnyInfo (parsed files decode_base64 path o)
      at (inl e) = tt
      at (inr bytes) = read_lines-Safely (files.dir path) no_info (split bytes b'\n')
