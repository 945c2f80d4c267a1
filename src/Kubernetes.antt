-- ===== src/Kubernetes.antt =====
-- internal/checker/kubernetes.go: the options, the report and the presets. What the program reads
-- of the file system is a parameter, a snapshot that does not change while the program runs.
pub mod Config
pub mod Scan
pub mod Run
pub mod Render
use ssl_certificate_verifier.Base.{
  ℕ, Bool, true, false, not, ◌&&◌, ◌||◌, List, [], ◌∷◌, if◌then◌else◌, Text, codes, str_eq,
  is_empty, Option, none, some, ◌⊎◌, inl, inr,
}
use ssl_certificate_verifier.Strings.{trim_space, to_lower}
use ssl_certificate_verifier.Types.{Options, Result, CertificateInfo, Bytes, Duration}

-- KubernetesOptions controls K3s/RKE2 certificate checks.
pub record KubernetesOptions : Type 0 where
  pub distro : Text
  pub kubeconfig : Text
  pub cert_dirs : List Text
  pub timeout : Duration
  pub include_pem : Bool
  pub skip_live : Bool
  pub skip_cert_scan : Bool
  pub check_options : Options

-- KubernetesCertificate reports one certificate discovered in a K3s/RKE2 path.
pub record KubernetesCertificate : Type 0 where
  pub path : Text
  pub certificate : CertificateInfo

-- KubernetesReport summarizes K3s/RKE2 API-server and local certificate checks.
pub record KubernetesReport : Type 0 where
  pub distro : Text
  pub kubeconfig : Text
  pub api_server : Text
  pub cert_dirs : List Text
  pub api_server_ca : Text
  pub api_server_check : Option Result
  pub certificates : List KubernetesCertificate
  pub warnings : List Text
  pub errors : List Text

pub record KubernetesPreset : Type 0 where
  pub distro : Text
  pub kubeconfig : Text
  pub cert_dirs : List Text

-- One call that `filepath.WalkDir` makes: a path, with an error or whether it is a directory.
pub record Visit : Type 0 where
  pub path : Text
  pub entry : Text ⊎ Bool

-- `os.Stat` gives an error or whether the path is a directory, `os.ReadFile` an error or the bytes,
-- and `filepath.WalkDir` the calls that it makes of a function that never fails, and its error. The
-- rest is `os.IsPathSeparator`, `filepath.Dir`, `IsAbs` and `Join`.
pub record Files : Type 0 where
  pub stat : Text → Text ⊎ Bool
  pub read_file : Text → Text ⊎ Bytes
  pub walk_dir : Text → List Visit × Option Text
  pub is_separator : ℕ → Bool
  pub dir : Text → Text
  pub is_abs : Text → Bool
  pub join : Text → Text → Text

-- Whether `os.Stat` has found a directory, or something else.
abbrev is_dir : Text ⊎ Bool → Bool
is_dir (inl e) = false
is_dir (inr dir) = dir

abbrev is_no_dir : Text ⊎ Bool → Bool
is_no_dir (inl e) = false
is_no_dir (inr dir) = not dir

unfoldable pub file_exists : Files → Text → Bool
file_exists files path = if is_empty path then false else is_no_dir (files.stat path)

unfoldable pub any_dir_exists : Files → List Text → Bool
any_dir_exists files [] = false
any_dir_exists files (path ∷ paths) = is_dir (files.stat path) || any_dir_exists files paths

unfoldable pub first_non_empty : Text → Text → Text
first_non_empty primary fallback = if not (is_empty (trim_space primary)) then primary else fallback

unfoldable pub first_non_empty_slice : List Text → List Text → List Text
first_non_empty_slice [] fallback = fallback
first_non_empty_slice (p ∷ primary) fallback = p ∷ primary

abbrev pub k3s_preset : KubernetesPreset
k3s_preset = record {
  distro = codes "k3s";
  kubeconfig = codes "/etc/rancher/k3s/k3s.yaml";
  cert_dirs = codes "/var/lib/rancher/k3s/server/tls" ∷ codes "/var/lib/rancher/k3s/agent" ∷ [];
}

abbrev pub rke2_preset : KubernetesPreset
rke2_preset = record {
  distro = codes "rke2";
  kubeconfig = codes "/etc/rancher/rke2/rke2.yaml";
  cert_dirs = codes "/var/lib/rancher/rke2/server/tls" ∷ codes "/var/lib/rancher/rke2/agent" ∷ [];
}

abbrev presets : List KubernetesPreset
presets = k3s_preset ∷ rke2_preset ∷ []

-- A preset without paths.
abbrev bare_preset : Text → KubernetesPreset
bare_preset distro = record { distro = distro; kubeconfig = []; cert_dirs = [] }

abbrev not_found_warning : Text
not_found_warning =
    codes "auto discovery did not find K3s or RKE2 default paths; using K3s defaults"

abbrev unknown_warning : Text
unknown_warning =
    codes "unknown Kubernetes distro preset; use --kubeconfig and --cert-dir for custom paths"

-- The first preset of which a path is there.
unfoldable pub discover : Files → List KubernetesPreset → KubernetesPreset × List Text
discover files [] = (k3s_preset, not_found_warning ∷ [])
discover files (preset ∷ rest) =
    let later = discover files rest in
    if file_exists files preset.kubeconfig || any_dir_exists files preset.cert_dirs
    then (preset, [])
    else later

-- The preset of the name.
unfoldable pub named_preset : Text → List KubernetesPreset → KubernetesPreset × List Text
named_preset distro [] = (bare_preset distro, unknown_warning ∷ [])
named_preset distro (preset ∷ rest) =
    let later = named_preset distro rest in
    if str_eq distro preset.distro then (preset, []) else later

unfoldable pub resolve_kubernetes_preset : Files → KubernetesOptions → KubernetesPreset × List Text
resolve_kubernetes_preset files opt =
    let distro = to_lower (trim_space opt.distro) in
    if is_empty distro || str_eq distro (codes "auto")
    then (if not (is_empty opt.kubeconfig) || not (is_empty opt.cert_dirs)
        then (bare_preset (codes "custom"), [])
        else discover files presets)
    else if str_eq distro (codes "custom")
    then (bare_preset (codes "custom"), [])
    else named_preset distro presets
