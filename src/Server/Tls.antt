-- ===== src/Server/Tls.antt =====
-- pkg/server/start/tls_config.go: `TLSConfig`. What it asks of a provider of certificates by type
-- assertions is the provider's fields, and the listeners that are added are a list.
use tilt_apiserver.Base.{
  ℕ, zero, suc, refl, ◌≡◌, ◌≢◌, ◌⊎◌, Bool-cases, Bool, true, false, not, ◌||◌, String, List, [],
  ◌∷◌, ◌++◌, Option, none, some, Result, ok, err, Error, ◌==◌, ltb, if◌then◌else◌, arith,
  Option-cases, inl, inr,
}

-- A provider of a client CA or of a certificate: whether it notifies listeners, and what its
-- `RunOnce` returns, if it has one.
pub record Provider : Type 0 where
  pub id : ℕ
  pub is_notifier : Bool
  pub run_once : Option (Option Error)

-- `server.SecureServingInfo`, as far as `TLSConfig` reads it.
pub record SecureServingInfo : Type 0 where
  pub disable_http2 : Bool
  pub min_tls_version : ℕ
  pub cipher_suites : List ℕ
  pub client_ca : Option Provider
  pub cert : Option Provider
  pub sni_certs : List Provider

pub data ClientAuth : Type 0 where
  no_client_cert request_client_cert : ClientAuth

-- `tls.Config`. `is_dynamic` says whether `GetConfigForClient` is set.
pub record TlsConfig : Type 0 where
  pub min_version : ℕ
  pub next_protos : List String
  pub cipher_suites : List ℕ
  pub client_auth : ClientAuth
  pub is_dynamic : Bool

-- `flag.InsecureTLSCiphers()`, the `RunOnce` of the controller made for a configuration, and the
-- error texts.
pub record TlsPackages : Type 0 where
  pub insecure_ciphers : List (String × ℕ)
  pub run_controller : TlsConfig → Option Provider → Option Provider → List Provider → Option Error
  pub insecure_cipher : String → Error
  pub client_ca_failed : Error → Error
  pub serving_certificate_failed : Error → Error
  pub sni_certificate_failed : Error → Error
  pub dynamic_certificates_failed : Error → Error

abbrev pub version_tls12 : ℕ
version_tls12 = 771

abbrev is_some : Option Provider → Bool
is_some none = false
is_some (some p) = true

abbrev is_empty : {A : Type 0} → List A → Bool
is_empty [] = true
is_empty (x ∷ xs) = false

-- The name under which a cipher is insecure.
unfoldable pub insecure_name : ℕ → List (String × ℕ) → Option String
insecure_name suite [] = none
insecure_name suite ((name, id) ∷ ciphers) =
    if suite == id then some name else insecure_name suite ciphers

-- The two loops over the suites and the insecure ciphers.
unfoldable pub find_insecure : List (String × ℕ) → List ℕ → Option String
unfolding insecure_name
find_insecure ciphers [] = none
find_insecure ciphers (suite ∷ suites) = elim (insecure_name suite ciphers) [
  | some name ↦ some name
  | none ↦ find_insecure ciphers suites
]

-- The static aspects of the configuration.
unfoldable pub static_config : SecureServingInfo → TlsConfig
static_config s = record {
  min_version = if ltb 0 s.min_tls_version then s.min_tls_version else version_tls12;
  next_protos = if s.disable_http2 then "http/1.1" ∷ [] else "h2" ∷ "http/1.1" ∷ [];
  cipher_suites = s.cipher_suites;
  client_auth = if is_some s.client_ca then request_client_cert else no_client_cert;
  is_dynamic = false;
}

abbrev listener : Option Provider → List Provider
listener none = []
listener (some p) = if p.is_notifier then p ∷ [] else []

-- The error of a provider's `RunOnce`, if it is a controller and fails.
unfoldable pub run_provider : (Error → Error) → Option Provider → Option Error
run_provider wrap none = none
run_provider wrap (some p) = elim p.run_once [
  | none ↦ none
  | some none ↦ none
  | some (some e) ↦ some (wrap e)
]

-- The loop over the SNI certificates, with the listeners that were added before.
unfoldable pub prime_sni :
    (Error → Error) → List Provider → List Provider → Option Error × List Provider
unfolding run_provider
prime_sni wrap [] added = (none, added)
prime_sni wrap (p ∷ providers) added =
    let rest = prime_sni wrap providers (added ++ listener (some p)) in
    elim (run_provider wrap (some p)) [
      | some e ↦ (some e, added ++ listener (some p))
      | none ↦ rest
    ]

module _ (t : TlsPackages) where
  unfoldable pub dynamic_config : SecureServingInfo → TlsConfig → Result TlsConfig × List Provider
  unfolding run_provider prime_sni
  dynamic_config s config =
      let added = listener s.client_ca ++ listener s.cert in
      elim (run_provider t.client_ca_failed s.client_ca) [
        | some e ↦ (err e, added)
        | none ↦ elim (run_provider t.serving_certificate_failed s.cert) [
          | some e ↦ (err e, added)
          | none ↦
              let (failed, added') = prime_sni t.sni_certificate_failed s.sni_certs added in
              elim failed [
                | some e ↦ (err e, added')
                | none ↦ elim (t.run_controller config s.client_ca s.cert s.sni_certs) [
                  | some e ↦ (err (t.dynamic_certificates_failed e), added')
                  | none ↦ (ok (record config { is_dynamic = true }), added')
                ]
              ]
        ]
      ]

  -- `TLSConfig`, with the providers that the controller listens to.
  unfoldable pub tls_config : SecureServingInfo → Result TlsConfig × List Provider
  unfolding static_config find_insecure dynamic_config
  tls_config s =
      let config = static_config s in
      elim (find_insecure t.insecure_ciphers s.cipher_suites) [
        | some name ↦ (err (t.insecure_cipher name), [])
        | none ↦
            if is_some s.client_ca || (is_some s.cert || not (is_empty s.sni_certs))
            then dynamic_config s config
            else (ok config, [])
      ]

-- The suite is none of the insecure ciphers.
abbrev IsSecure : ℕ → List (String × ℕ) → Type 0
IsSecure suite [] = Unit
IsSecure suite ((name, id) ∷ ciphers) = (suite ≢ id) × IsSecure suite ciphers

-- Every suite of the list differs from every insecure cipher.
abbrev pub AllSecure : List (String × ℕ) → List ℕ → Type 0
AllSecure ciphers [] = Unit
AllSecure ciphers (suite ∷ suites) = IsSecure suite ciphers × AllSecure ciphers suites

insecure_name-IsSecure :
    (suite : ℕ) (ciphers : List (String × ℕ))
    → insecure_name suite ciphers ≡ none
    → IsSecure suite ciphers
unfolding insecure_name
insecure_name-IsSecure suite [] h = tt
insecure_name-IsSecure suite ((name, id) ∷ ciphers) h = elim (Bool-cases (suite == id)) [
  | inl e ↦ absurd (ground (arith, e, h))
  | inr e ↦
      (λ same. ground (arith, e, same), insecure_name-IsSecure suite ciphers (ground (arith, e, h)))
]

find_insecure-AllSecure :
    (ciphers : List (String × ℕ)) (suites : List ℕ)
    → find_insecure ciphers suites ≡ none
    → AllSecure ciphers suites
unfolding find_insecure
find_insecure-AllSecure ciphers [] h = tt
find_insecure-AllSecure ciphers (suite ∷ suites) h =
    elim (Option-cases (insecure_name suite ciphers)) [
      | inr (name, e) ↦ absurd (ground (arith, e))
      | inl e ↦ (
        insecure_name-IsSecure suite ciphers e,
        find_insecure-AllSecure ciphers suites (ground (arith, e)),
      )
    ]

asked_version :
    (asked version : ℕ)
    → version ≡ (if ltb 0 asked then asked else version_tls12)
    → ((asked ≡ 0) × (version ≡ version_tls12)) ⊎ ((asked ≢ 0) × (version ≡ asked))
asked_version zero version h = inl (refl, ground (arith, h))
asked_version (suc asked) version h = inr (λ e. ground (arith, e), ground (arith, h))

without_controller :
    (ca cert : Option Provider) (certs : List Provider) (dynamic : Bool)
    → dynamic ≡ (is_some ca || (is_some cert || not (is_empty certs)))
    → (dynamic ≡ true) ⊎ ((dynamic ≡ false) × (ca ≡ none) × (cert ≡ none) × (certs ≡ []))
without_controller (some ca) cert certs dynamic h = inl h
without_controller none (some cert) certs dynamic h = inl h
without_controller none none (c ∷ certs) dynamic h = inl h
without_controller none none [] dynamic h = inr (h, refl, refl, refl)

module _ (t : TlsPackages) (s : SecureServingInfo) (config : TlsConfig) where
  dynamic_config-ok :
      (base : TlsConfig)
      → (dynamic_config t s base).0 ≡ ok config
      → config ≡ record base { is_dynamic = true }
  unfolding dynamic_config
  dynamic_config-ok base h = ground (arith, h)

  -- A configuration that is made has the suites of the options, and each of them differs from every
  -- insecure cipher; its version is the one of the options, or TLS 1.2 if they name none; and where
  -- it does not answer each client by the controller, there is no client CA and no certificate.
  pub tls_config-ok :
      (tls_config t s).0 ≡ ok config
      → AllSecure t.insecure_ciphers config.cipher_suites
        × (config.cipher_suites ≡ s.cipher_suites)
        × (((s.min_tls_version ≡ 0) × (config.min_version ≡ version_tls12))
            ⊎ ((s.min_tls_version ≢ 0) × (config.min_version ≡ s.min_tls_version)))
        × ((config.is_dynamic ≡ true)
            ⊎ ((config.is_dynamic ≡ false)
                × (s.client_ca ≡ none)
                × (s.cert ≡ none)
                × (s.sni_certs ≡ [])))
  unfolding tls_config static_config
  tls_config-ok h = elim (Option-cases (find_insecure t.insecure_ciphers s.cipher_suites)) [
    | inr (name, e) ↦ absurd (ground (arith, e))
    | inl e ↦
        let suites : config.cipher_suites ≡ s.cipher_suites =
          ground (arith, e, dynamic_config-ok (static_config s)) in
        let version : config.min_version
            ≡ (if ltb 0 s.min_tls_version then s.min_tls_version else version_tls12) =
          ground (arith, e, dynamic_config-ok (static_config s)) in
        let dynamic : config.is_dynamic
            ≡ (is_some s.client_ca || (is_some s.cert || not (is_empty s.sni_certs))) =
          ground (arith, e, dynamic_config-ok (static_config s)) in
        (
          rw suites (find_insecure-AllSecure t.insecure_ciphers s.cipher_suites e),
          suites,
          asked_version s.min_tls_version config.min_version version,
          without_controller s.client_ca s.cert s.sni_certs config.is_dynamic dynamic,
        )
  ]
