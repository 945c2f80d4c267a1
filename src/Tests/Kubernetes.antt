-- ===== src/Tests/Kubernetes.antt =====
-- internal/checker/kubernetes.go on a small file system with one certificate file.
use ssl_certificate_verifier.Base.{
  ℕ, ◌||◌, any, ◌≡◌, ◌≢◌, refl, ap, arith, Bool, true, false, List, [], ◌∷◌, ◌++◌, ◌==◌, Text,
  codes, str_eq, length, Option, none, some, ◌⊎◌, inl, inr, ok, panic, Returns,
}
use ssl_certificate_verifier.Base.Int.{pos}
use ssl_certificate_verifier.Strings.{has_prefix, trim_space, is_space, text_runs}
use ssl_certificate_verifier.Types.{Bytes, empty_options}
use ssl_certificate_verifier.Kubernetes.{Files, KubernetesOptions}
use ssl_certificate_verifier.Kubernetes.Config.{
  server_key, ca_key, ca_data_key, before_comment, clean_yaml_scalar, scalar, resolve_ca_file,
  read_lines, parse_kubeconfig,
}
use ssl_certificate_verifier.Kubernetes.Config.First.{find_fields, parse_kubeconfig-first}
use ssl_certificate_verifier.Kubernetes.Config.RoundTrip.{write_kubeconfig}
use ssl_certificate_verifier.Kubernetes.Scan.{Block, Decoders, scan_kubernetes_cert_dirs}
use ssl_certificate_verifier.Kubernetes.Scan.Blocks.{Shrinks}
use ssl_certificate_verifier.Kubernetes.Scan.Source.{AllFrom, scan_kubernetes_cert_dirs-AllFrom}
use ssl_certificate_verifier.Kubernetes.Run.{check_kubernetes}
use ssl_certificate_verifier.Kubernetes.Run.Report.{
  IsKubernetesReport, check_kubernetes-IsKubernetesReport,
}
use ssl_certificate_verifier.Tests.Cert.{x509, certificate}
use ssl_certificate_verifier.Tests.Run.{env}

-- The file `/k` is a kubeconfig, the directory `/d` holds the certificate `/d/a.crt`.
abbrev kubeconfig : Text
kubeconfig =
    codes "clusters:"
    ++ (b'\n' ∷ codes "    server: 'https://a.b'"
        ++ (b'\n' ∷ codes "    certificate-authority: ca.pem # file"))

abbrev stat_of : Bool → Text ⊎ Bool
stat_of true = inr true
stat_of false = inl (codes "no such file")

abbrev read_of : Bool → Text ⊎ Bytes
read_of true = inr kubeconfig
read_of false = inr (1 ∷ 2 ∷ [])

abbrev pub files : Files
files = record {
  stat = λ path. stat_of (str_eq path (codes "/d"));
  read_file = λ path. read_of (str_eq path (codes "/k"));
  walk_dir = λ dir. (
    record { path = codes "/d"; entry = inr true }
        ∷ record { path = codes "/d/a.crt"; entry = inr false }
        ∷ [],
    none,
  );
  is_separator = λ c. c == b'/';
  dir = λ path. codes "/";
  is_abs = λ path. false;
  join = λ dir path. dir ++ path;
}

-- Every two bytes are a block with the certificate.
abbrev block_of : Bytes → Option (Block × Bytes)
block_of [] = none
block_of (a ∷ []) = none
block_of (a ∷ b ∷ bytes) =
    some (record { block_type = codes "CERTIFICATE"; bytes = a ∷ b ∷ [] }, bytes)

abbrev pub decoders : Decoders
decoders = record { decode_pem = block_of; parse_certificate = λ bytes. inr certificate }

abbrev rest_of : Option (Block × Bytes) → Bytes
rest_of none = []
rest_of (some (block, rest)) = rest

pub decoders-Shrinks : Shrinks decoders
decoders-Shrinks [] block rest e = cc
decoders-Shrinks (a ∷ []) block rest e = cc
decoders-Shrinks (a ∷ b ∷ bytes) block rest e = omega (arith, ap length (ap rest_of e))

abbrev pub decode_base64 : Text → Text ⊎ Bytes
decode_base64 text = inr text

abbrev pub options : KubernetesOptions
options = record {
  distro = codes "custom";
  kubeconfig = codes "/k";
  cert_dirs = codes "/d" ∷ codes "/e" ∷ [];
  timeout = pos 0;
  include_pem = false;
  skip_live = false;
  skip_cert_scan = false;
  check_options = empty_options;
}

parse_kubeconfig-first_example :
    parse_kubeconfig files decode_base64 (codes "/k") ≡ find_fields files decode_base64 (codes "/k")
parse_kubeconfig-first_example = parse_kubeconfig-first files decode_base64 (codes "/k")

fields_read :
    parse_kubeconfig files decode_base64 (codes "/k")
    ≡ ok (record { server = codes "https://a.b"; ca_file = codes "/ca.pem"; ca_data_pem = [] })
unfolding parse_kubeconfig read_lines resolve_ca_file scalar clean_yaml_scalar before_comment
    text_runs
fields_read = refl

-- A quoted scalar keeps its closing quote if a comment stands behind it.
quote_kept : clean_yaml_scalar (codes "'https://a.b' # api") ≡ codes "https://a.b' # api"
unfolding clean_yaml_scalar before_comment text_runs
quote_kept = refl

-- An unquoted scalar loses what is behind a sharp, which is no comment of YAML without a blank.
fragment_lost : clean_yaml_scalar (codes "https://a.b/#x") ≡ codes "https://a.b/"
unfolding clean_yaml_scalar before_comment text_runs
fragment_lost = refl

scan_kubernetes_cert_dirs-AllFrom_example :
    Returns
      (AllFrom files decoders x509 false (pos 15) options.cert_dirs)
      (scan_kubernetes_cert_dirs files decoders x509 false (pos 15) options.cert_dirs)
scan_kubernetes_cert_dirs-AllFrom_example =
    scan_kubernetes_cert_dirs-AllFrom files decoders x509 false (pos 15) options.cert_dirs
      decoders-Shrinks

pub urls_read : (text : Text) → env.syntax.parse_url text ≢ panic
urls_read text e = cc

check_kubernetes-IsKubernetesReport_example :
    Returns
      (IsKubernetesReport env files decoders decode_base64 options (0, 0))
      (check_kubernetes env files decoders decode_base64 options (0, 0)).0
check_kubernetes-IsKubernetesReport_example =
    check_kubernetes-IsKubernetesReport env files decoders decode_base64 options (0, 0)
      decoders-Shrinks urls_read

-- The lines of a kubeconfig of K3s before and behind those of its cluster.
abbrev lines_before : List Text
lines_before = codes "clusters:" ∷ codes "- cluster:" ∷ []

abbrev lines_after : List Text
lines_after =
    codes "  name: default"
    ∷ codes "contexts:"
    ∷ codes "- context:"
    ∷ codes "    cluster: default"
    ∷ codes "    user: default"
    ∷ codes "  name: default"
    ∷ codes "current-context: default"
    ∷ codes "kind: Config"
    ∷ codes "preferences: {}"
    ∷ codes "users:"
    ∷ codes "- name: default"
    ∷ codes "  user:"
    ∷ codes "    client-certificate-data: AQI="
    ∷ codes "    client-key-data: AQI="
    ∷ []
    ∷ []

abbrev written_files : Files
written_files = record files {
  read_file = λ path. inr (
      write_kubeconfig (codes "apiVersion: v1") lines_before (codes "https://127.0.0.1:6443")
        (codes "AQI=") lines_after);
}

abbrev is_marked : ℕ → Bool
is_marked c = is_space c || (c == b'"') || (c == b'\'') || (c == b'#')

abbrev has_key : Text → Bool
has_key line =
    any (λ c. c == b'\n') line
    || (has_prefix (trim_space line) server_key
        || (has_prefix (trim_space line) ca_key || has_prefix (trim_space line) ca_data_key))
