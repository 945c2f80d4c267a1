-- ===== src/Kubernetes/Render.antt =====
-- internal/checker/kubernetes.go: `RenderKubernetesText`, as its lines.
use ssl_certificate_verifier.Base.{
  not, List, [], ◌∷◌, ◌++◌, map, if◌then◌else◌, Text, codes, is_empty, Option, none, some,
}
use ssl_certificate_verifier.Strings.{itoa_ℤ, join}
use ssl_certificate_verifier.Types.{Result, CertificateInfo}
use ssl_certificate_verifier.Security.Finding.{blank_dash}
use ssl_certificate_verifier.Render.Words.{
  yes_no, pass_fail, hostname_status, when, titled, unlines,
}
use ssl_certificate_verifier.Render.Network.{error_line}
use ssl_certificate_verifier.Render.Trust.{Layouts, validity, lines_of, item}
use ssl_certificate_verifier.Kubernetes.{KubernetesReport, KubernetesCertificate}

unfoldable pub api_leaf_lines : Layouts → List CertificateInfo → List Text
api_leaf_lines layouts [] = []
api_leaf_lines layouts (leaf ∷ certs) =
    (codes "Leaf:        " ++ blank_dash leaf.subject_common_name)
    ∷ (codes "Expires:     "
        ++ (layouts.date leaf.not_after
            ++ (codes " (" ++ (itoa_ℤ leaf.days_remaining ++ codes " days)"))))
    ∷ []

abbrev api_connection_lines : Layouts → Result → List Text
api_connection_lines layouts r =
    if r.tls.connected
    then (codes "Version:     " ++ blank_dash r.tls.negotiated_version)
      ∷ (codes "Cipher:      " ++ blank_dash r.tls.cipher_suite)
      ∷ (codes "Verified:    " ++ pass_fail r.verification.verified)
      ∷ (codes "Hostname:    " ++ hostname_status r.verification)
      ∷ api_leaf_lines layouts r.certificates
    else error_line r.tls.error

unfoldable pub api_lines : Layouts → Option Result → List Text
api_lines layouts none = []
api_lines layouts (some r) =
    titled (codes "API server TLS") (codes "--------------")
      ((codes "Connected:   " ++ yes_no r.tls.connected) ∷ api_connection_lines layouts r)

unfoldable pub local_certificate_lines : Layouts → KubernetesCertificate → List Text
local_certificate_lines layouts cert =
    item cert.path
    ∷ (codes "  Subject:   " ++ blank_dash cert.certificate.subject_common_name)
    ∷ (codes "  Issuer:    " ++ blank_dash cert.certificate.issuer_common_name)
    ∷ (codes "  Role:      " ++ blank_dash cert.certificate.role)
    ∷ (codes "  Status:    " ++ cert.certificate.status)
    ∷ (codes "  Validity:  "
        ++ (validity layouts cert.certificate
            ++ (codes " (" ++ (itoa_ℤ cert.certificate.days_remaining ++ codes " days)"))))
    ∷ (codes "  SHA256:    " ++ blank_dash cert.certificate.fingerprint_sha256)
    ∷ []

-- The items of a list that is not empty, under a title.
abbrev items : Text → Text → List Text → List Text
items title under texts = when (not (is_empty texts)) (titled title under (map item texts))

unfoldable pub kubernetes_lines : Layouts → KubernetesReport → List Text
kubernetes_lines layouts r =
    codes "Kubernetes certificate report"
    ∷ codes "============================="
    ∷ (codes "Distro:      " ++ blank_dash r.distro)
    ∷ (codes "Kubeconfig:  " ++ blank_dash r.kubeconfig)
    ∷ (codes "API server:  " ++ blank_dash r.api_server)
    ∷ (when (not (is_empty r.api_server_ca)) ((codes "API CA file:  " ++ r.api_server_ca) ∷ [])
        ++ (when (not (is_empty r.cert_dirs))
              ((codes "Cert dirs:   " ++ join r.cert_dirs (codes ", ")) ∷ [])
            ++ (api_lines layouts r.api_server_check
                ++ (when (not (is_empty r.certificates)) (
                      titled (codes "Local certificates") (codes "------------------")
                        (lines_of (local_certificate_lines layouts) r.certificates))
                    ++ (items (codes "Warnings") (codes "--------") r.warnings
                        ++ items (codes "Errors") (codes "------") r.errors)))))

unfoldable pub render_kubernetes_text : Layouts → Option KubernetesReport → Text
render_kubernetes_text layouts none = []
render_kubernetes_text layouts (some r) = unlines (kubernetes_lines layouts r)
