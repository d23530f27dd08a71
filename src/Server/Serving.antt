-- ===== src/Server/Serving.antt =====
-- pkg/server/options/serving.go: `SecureServingOptions`. A port is an `int`, which can be negative.
pub mod Certificates
pub mod Valid
pub mod Flags
use tilt_apiserver.Base.{
  ℕ, ◌+◌, Bool, true, false, not, ◌&&◌, ◌||◌, String, ◌<>◌, ◌=~◌, List, [], ◌∷◌, ◌++◌, Option, none,
  some, Result, ok, err, Error, ltb, leb, ◌==◌, ◌>>=◌, if◌then◌else◌,
}
use tilt_apiserver.Go.Paths

-- An `int`; `negative n` is -(n + 1).
pub data Port : Type 0 where
  port : ℕ → Port
  negative : ℕ → Port

abbrev pub port_lt_one : Port → Bool
port_lt_one (port n) = ltb n 1
port_lt_one (negative n) = true

abbrev pub port_lt_zero : Port → Bool
port_lt_zero (port n) = false
port_lt_zero (negative n) = true

abbrev pub port_too_large : Port → Bool
port_too_large (port n) = ltb 65535 n
port_too_large (negative n) = false

abbrev pub port_is_zero : Port → Bool
port_is_zero (port n) = n == 0
port_is_zero (negative n) = false

-- What the packages `net`, `dynamiccertificates`, `certutil` and `cliflag` do. An address is a text.
pub record Serving : Type 1 where
  pub Listener : Type 0
  -- a `CertKeyContentProvider`
  pub Content : Type 0
  pub is_unspecified : String → Bool
  -- `config.Listen`, and the port of the listener's TCP address, if it has one
  pub listen : String → String → Result Listener
  pub tcp_port : Listener → Option ℕ
  pub join_host_port : String → Port → String
  pub content_from_files : String → String → Result Content
  pub content_from_bytes : String → String → Result Content
  pub tls_cipher_suites : List String → Result (List ℕ)
  pub tls_version : String → Result ℕ
  pub sni_content : String → String → List String → Result Content
  -- `certutil.CanReadCertAndKey`
  pub can_read_cert_and_key : String → String → Result Bool
  -- the validity of the certificate in a file, if it is readable, PEM and a certificate
  pub certificate : String → Option (record { not_before : ℕ; not_after : ℕ })
  -- the certificate and key generated for a host, addresses and names
  pub generate :
      String → List String → List String → String → Result (record { cert : String; key : String })
  -- `certutil.WriteCert` and `keyutil.WriteKey`: the error, if the file is not written
  pub write_cert : String → String → Option Error
  pub write_key : String → String → Option Error
  -- the error texts that the code makes
  pub failed_to_listen : String → Error → Error
  pub invalid_listen_address : Error
  pub failed_to_create_listener : Error → Error
  pub pair_name_required : Error
  pub unable_to_generate : Error → Error
  pub failed_to_load_sni : Error → Error

-- The complaints of `Validate`.
pub data Complaint : Type 0 where
  port_required port_out_of_range both_certificates : Complaint

-- `NamedCertKey`
pub record NamedCertKey : Type 0 where
  pub cert_file : String
  pub key_file : String
  pub names : List String

-- `SecureServingOptions`, with `CertKey` and `GeneratableKeyCert` in line.
pub record Options (v : Serving) : Type 0 where
  pub bind_address : String
  pub bind_port : Port
  pub bind_network : String
  pub required : Bool
  pub listener : Option v.Listener
  pub cert_file : String
  pub key_file : String
  pub cert_directory : String
  pub pair_name : String
  pub generated_cert : Option v.Content
  pub pregenerated_cert : Bool
  pub fixture_directory : String
  pub sni_cert_keys : List NamedCertKey
  pub cipher_suites : List String
  pub min_tls_version : String
  pub http2_max_streams_per_connection : ℕ
  pub bearer_token : String

-- `server.SecureServingInfo`, as far as `ApplyTo` sets it.
pub record ServingInfo (v : Serving) : Type 0 where
  pub listener : v.Listener
  pub http2_max_streams_per_connection : ℕ
  pub cert : Option v.Content
  pub cipher_suites : List ℕ
  pub min_tls_version : ℕ
  pub sni_certs : List v.Content

abbrev pub is_empty : String → Bool
is_empty s = s =~ ""

abbrev pub is_some : {A : Type 0} → Option A → Bool
is_some none = false
is_some (some a) = true

module _ {v : Serving} where
  -- `s.Required && s.BindPort < 1 || s.BindPort > 65535`, where `&&` binds tighter.
  unfoldable pub validate_port : Options v → List Complaint
  validate_port s =
      if (s.required && port_lt_one s.bind_port) || port_too_large s.bind_port
      then port_required ∷ []
      else if port_lt_zero s.bind_port || port_too_large s.bind_port
      then port_out_of_range ∷ []
      else []

  unfoldable pub validate : Options v → List Complaint
  unfolding validate_port
  validate s =
      validate_port s
      ++ (if (not (is_empty s.cert_file) || not (is_empty s.key_file)) && is_some s.generated_cert
          then both_certificates ∷ []
          else [])

module _ (v : Serving) where
  -- `CreateListener`; a listener with no TCP address is closed again.
  unfoldable pub create_listener :
      String → String → Result (record { listener : v.Listener; port : ℕ })
  create_listener network addr =
      elim (v.listen (if is_empty network then "tcp" else network) addr) [
        | err e ↦ err (v.failed_to_listen addr e)
        | ok ln ↦ elim (v.tcp_port ln) [
          | none ↦ err v.invalid_listen_address
          | some p ↦ ok (record { listener = ln; port = p })
        ]
      ]

  -- `checkCertAndKeyReadableAndValid` at the time `now`, in seconds: thirty days must be left.
  unfoldable pub check_cert_and_key : ℕ → String → String → Result Bool
  check_cert_and_key now cert_file key_file = elim (v.can_read_cert_and_key cert_file key_file) [
    | err e ↦ err e
    | ok false ↦ ok false
    | ok true ↦ elim (v.certificate cert_file) [
      | none ↦ ok false
      | some c ↦
          if ltb now c.not_before
          then ok false
          else if ltb c.not_after (now + 2592000)
          then ok false
          else ok true
    ]
  ]

  -- The listener of the options, created where there is none.
  unfoldable pub ensure_listener :
      Options v → Result (record { options : Options v; listener : v.Listener })
  unfolding create_listener
  ensure_listener s = elim s.listener [
    | some l ↦ ok (record { options = s; listener = l })
    | none ↦ elim (create_listener s.bind_network (v.join_host_port s.bind_address s.bind_port)) [
      | err e ↦ err (v.failed_to_create_listener e)
      | ok r ↦ ok (record {
        options = record s { listener = some r.listener; bind_port = port r.port };
        listener = r.listener;
      })
    ]
  ]

  -- The main certificate: from the files, if one is named, or the generated one.
  unfoldable pub load_cert : Options v → Result (Option v.Content)
  load_cert s =
      if not (is_empty s.cert_file) || not (is_empty s.key_file)
      then (v.content_from_files s.cert_file s.key_file >>= λ c. ok (some c))
      else ok s.generated_cert

  unfoldable pub load_sni : List NamedCertKey → Result (List v.Content)
  load_sni [] = ok []
  load_sni (k ∷ keys) = elim (v.sni_content k.cert_file k.key_file k.names) [
    | err e ↦ err (v.failed_to_load_sni e)
    | ok c ↦ load_sni keys >>= λ cs. ok (c ∷ cs)
  ]

  abbrev pub no_suites : List String → Bool
  no_suites [] = true
  no_suites (x ∷ xs) = false

  unfoldable pub load_suites : List String → Result (List ℕ)
  load_suites suites = if no_suites suites then ok [] else v.tls_cipher_suites suites

  -- `ApplyTo`: the options with their listener, and the serving information, unless there is
  -- nothing to serve.
  unfoldable pub apply_to :
      Options v → Result (record { options : Options v; info : Option (ServingInfo v) })
  unfolding ensure_listener load_cert load_sni load_suites
  apply_to s =
      if (port_lt_one s.bind_port) && not (is_some s.listener)
      then ok (record { options = s; info = none })
      else (do
        r ← ensure_listener s
        cert ← load_cert r.options
        suites ← load_suites r.options.cipher_suites
        version ← v.tls_version r.options.min_tls_version
        sni ← load_sni r.options.sni_cert_keys
        ok (record {
          options = r.options;
          info = some (record {
            listener = r.listener;
            http2_max_streams_per_connection = r.options.http2_max_streams_per_connection;
            cert = cert;
            cipher_suites = suites;
            min_tls_version = version;
            sni_certs = sni;
          });
        }))
