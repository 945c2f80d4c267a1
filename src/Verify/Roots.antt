-- ===== src/Verify/Roots.antt =====
-- internal/checker/verify.go: `loadRoots`, with the verifier that it is given.
use ssl_certificate_verifier.Base.{
  ℕ, Bool, true, false, List, [], ◌∷◌, ◌++◌, if◌then◌else◌, Text, codes, is_empty, Option, none,
  some,
}
use ssl_certificate_verifier.Types.{Bytes, Instant}
use ssl_certificate_verifier.X509.{Certificate}

-- `x509.VerifyOptions`.
pub record VerifyOptions (Pool : Type 0) : Type 0 where
  pub roots : Pool
  pub intermediates : Pool
  pub current_time : Instant
  pub key_usages : List ℕ
  pub dns_name : Text

-- The functions of crypto/x509 and os that the verification calls, over a type of pools.
pub record Verifier (Pool : Type 0) : Type 0 where
  pub system_cert_pool : Option Pool × Option Text
  pub new_cert_pool : Pool
  pub append_certs_from_pem : Pool → Bytes → Pool × Bool
  pub add_cert : Pool → Certificate → Pool
  pub read_file : Text → Bytes × Option Text
  pub verify : Certificate → VerifyOptions Pool → List (List Certificate) × Option Text
  pub verify_hostname : Certificate → Text → Option Text

abbrev pub is_none {ℓ} : {A : Type ℓ} → Option A → Bool
is_none none = true
is_none (some a) = false

module _ {Pool : Type 0} (v : Verifier Pool) where
  -- The roots of the system, and the warning if there are none.
  abbrev system_roots : Option Pool × Option Text → Pool × List Text
  system_roots (pool, some e) = (
    v.new_cert_pool,
    codes
          "system root store could not be loaded; only custom CA certificates will be used if provided"
        ∷ [],
  )
  system_roots (none, none) = (v.new_cert_pool, [])
  system_roots (some pool, none) = (pool, [])

  abbrev add_pem : Text → Bytes → Pool → Pool × Option Text
  add_pem message pem roots =
      let added = v.append_certs_from_pem roots pem in
      (added.0, if added.1 then none else some message)

  abbrev add_file : Text → Pool → Bytes × Option Text → Pool × Option Text
  add_file ca_file roots (pem, some e) = (roots, some e)
  add_file ca_file roots (pem, none) =
      add_pem (codes "no PEM certificates found in " ++ ca_file) pem roots

  abbrev add_ca_file : Text → Pool → Pool × Option Text
  add_ca_file ca_file roots =
      if is_empty ca_file then (roots, none) else add_file ca_file roots (v.read_file ca_file)

  abbrev add_bundle : Bytes → Pool × Option Text → Pool × Option Text
  add_bundle bundle (roots, some e) = (roots, some e)
  add_bundle bundle (roots, none) =
      if is_empty bundle
      then (roots, none)
      else add_pem (codes "no PEM certificates found in inline CA bundle") bundle roots

  -- The roots, the warnings and the error.
  unfoldable pub load_roots : Text → Bytes → Pool × List Text × Option Text
  load_roots ca_file bundle =
      let system = system_roots v.system_cert_pool in
      let custom = add_bundle bundle (add_ca_file ca_file system.0) in
      (custom.0, system.1, custom.1)
