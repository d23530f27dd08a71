-- ===== src/Server/Serving/Flags.antt =====
-- The defaults of `SecureServingOptions`, and the flags that `AddFlags` gives to them.
use tilt_apiserver.Base.{
  ℕ, false, String, ◌=~◌, List, [], ◌∷◌, Option, none, some, Result, ok, if◌then◌else◌,
}
use tilt_apiserver.Server.Serving.{Serving, Options, Port, port, NamedCertKey}

-- Options with an address, a port, and a place for certificates, and zero values else.
abbrev pub options_at : {v : Serving} → String → Port → String → String → Options v
options_at address bind_port directory pair = record {
  bind_address = address;
  bind_port = bind_port;
  bind_network = "";
  required = false;
  listener = none;
  cert_file = "";
  key_file = "";
  cert_directory = directory;
  pair_name = pair;
  generated_cert = none;
  pregenerated_cert = false;
  fixture_directory = "";
  sni_cert_keys = [];
  cipher_suites = [];
  min_tls_version = "";
  http2_max_streams_per_connection = 0;
  bearer_token = "";
}

-- `NewSecureServingOptions`
unfoldable pub new_secure_serving_options : {v : Serving} → Options v
new_secure_serving_options =
    options_at "0.0.0.0" (port 443) "tilt-apiserver.local.config/certificates" "tilt-apiserver"

-- `DefaultExternalAddress`, where `resolve` is `utilnet.ResolveBindAddress`. The external address is
-- a field that nothing else reads.
unfoldable pub default_external_address :
    {v : Serving} → (String → Result String) → Option String → Options v → Result String
default_external_address {v} resolve none s = resolve s.bind_address
default_external_address {v} resolve (some external) s =
    if v.is_unspecified external then resolve s.bind_address else ok external

-- A flag writes a value that it has parsed to a field.
pub data Flag (v : Serving) : Type 0 where
  ip_flag string_flag : (String → Options v → Options v) → Flag v
  int_flag : (Port → Options v → Options v) → Flag v
  number_flag : (ℕ → Options v → Options v) → Flag v
  strings_flag : (List String → Options v → Options v) → Flag v
  cert_keys_flag : (List NamedCertKey → Options v → Options v) → Flag v

-- `AddFlags`, without `permit-port-sharing`, whose field nothing else reads.
unfoldable pub flags : {v : Serving} → List (String × Flag v)
flags =
    ("bind-address", ip_flag (λ a s. record s { bind_address = a }))
    ∷ ("secure-port", int_flag (λ p s. record s { bind_port = p }))
    ∷ ("token", string_flag (λ t s. record s { bearer_token = t }))
    ∷ ("cert-dir", string_flag (λ d s. record s { cert_directory = d }))
    ∷ ("tls-cert-file", string_flag (λ f s. record s { cert_file = f }))
    ∷ ("tls-private-key-file", string_flag (λ f s. record s { key_file = f }))
    ∷ ("tls-cipher-suites", strings_flag (λ l s. record s { cipher_suites = l }))
    ∷ ("tls-min-version", string_flag (λ x s. record s { min_tls_version = x }))
    ∷ ("tls-sni-cert-key", cert_keys_flag (λ l s. record s { sni_cert_keys = l }))
    ∷ (
      "http2-max-streams-per-connection",
      number_flag (λ n s. record s { http2_max_streams_per_connection = n }),
    )
    ∷ []

-- The flag of a name.
unfoldable pub find_flag : {v : Serving} → String → List (String × Flag v) → Option (Flag v)
find_flag name [] = none
find_flag name ((key, flag) ∷ rest) = if key =~ name then some flag else find_flag name rest

-- The options after `--name=p` for an integer flag.
unfoldable pub set_int_flag : {v : Serving} → String → Port → Options v → Options v
unfolding find_flag flags
set_int_flag name p s = elim (find_flag name flags) [
  | some (int_flag write) ↦ write p s
  | some (ip_flag write) ↦ s
  | some (string_flag write) ↦ s
  | some (number_flag write) ↦ s
  | some (strings_flag write) ↦ s
  | some (cert_keys_flag write) ↦ s
  | none ↦ s
]
