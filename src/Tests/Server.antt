-- ===== src/Tests/Server.antt =====
-- The options of a server on port 443, with a package of listeners that are their ports.
use tilt_apiserver.Base.{
  ◌≡◌, ◌≢◌, ◌↔◌, ◌⊎◌, refl, ℕ, true, false, ◌==◌, String, [], ◌∷◌, none, some, ok, internal,
  if◌then◌else◌, arith, List, eq_iff,
}
use tilt_apiserver.Server.Serving.{
  Serving, Options, ServingInfo, port, validate, validate_port, apply_to, ensure_listener,
  create_listener, load_cert, load_sni, load_suites, is_some,
}
use tilt_apiserver.Server.Serving.Valid.{IsValid, validate_iff}
use tilt_apiserver.Server.Serving.Certificates.{
  maybe_default_with_self_signed_certs, find_pair, generate_pair, maybe_default-apply_to,
}
use tilt_apiserver.Server.Tls.{
  SecureServingInfo, TlsConfig, TlsPackages, tls_config, find_insecure, insecure_name,
  static_config, dynamic_config, run_provider, prime_sni, AllSecure, tls_config-ok, no_client_cert,
}
use tilt_apiserver.Builder.Register.{GroupVersionResource, get_api}
use tilt_apiserver.Server.ApiGroups.{
  ApiGroupInfo, lookup, put, add_storage, add_provider, gather, build_groups, build_api_group_infos,
}
use tilt_apiserver.Builder.Register.Status.{OneEach}
use tilt_apiserver.Server.ApiGroups.Served.{has}
use tilt_apiserver.Server.Start.{Startup, TiltServerOptions, validate_start}

abbrev pub network : Serving
network = record {
  Listener = ℕ;
  Content = String;
  is_unspecified = λ a. false;
  listen = λ n a. ok 443;
  tcp_port = λ l. if l == 0 then none else some l;
  join_host_port = λ host p. host;
  content_from_files = λ c k. ok c;
  content_from_bytes = λ c k. ok c;
  tls_cipher_suites = λ names. ok [];
  tls_version = λ name. ok 0;
  sni_content = λ c k names. ok c;
  can_read_cert_and_key = λ c k. ok false;
  certificate = λ c. none;
  generate = λ host ips names fixtures. ok (record { cert = "cert"; key = "key" });
  write_cert = λ file c. none;
  write_key = λ file k. none;
  failed_to_listen = λ a e. e;
  invalid_listen_address = internal "invalid listen address";
  failed_to_create_listener = λ e. e;
  pair_name_required = internal "PairName is required";
  unable_to_generate = λ e. e;
  failed_to_load_sni = λ e. e;
}

abbrev pub plain : Options network
plain = record {
  bind_address = "127.0.0.1";
  bind_port = port 443;
  bind_network = "";
  required = true;
  listener = none;
  cert_file = "";
  key_file = "";
  cert_directory = "";
  pair_name = "";
  generated_cert = none;
  pregenerated_cert = false;
  fixture_directory = "";
  sni_cert_keys = [];
  cipher_suites = [];
  min_tls_version = "";
  http2_max_streams_per_connection = 0;
  bearer_token = "token";
}

validate_iff_example : (validate plain ≡ []) ↔ IsValid plain
validate_iff_example = validate_iff plain

-- The options with the certificate that is generated, and what is served with them.
abbrev pub certified : Options network
certified = record plain { generated_cert = some "cert" }

abbrev pub served_info : ServingInfo network
served_info = record {
  listener = 443;
  http2_max_streams_per_connection = 0;
  cert = some "cert";
  cipher_suites = [];
  min_tls_version = 0;
  sni_certs = [];
}

default_run : maybe_default_with_self_signed_certs network 0 "localhost" [] [] plain ≡ ok certified
unfolding maybe_default_with_self_signed_certs find_pair generate_pair
default_run = refl

apply_run :
    apply_to network certified
    ≡ ok (record { options = record certified { listener = some 443 }; info = some served_info })
unfolding apply_to ensure_listener create_listener load_cert load_sni load_suites
apply_run = refl

maybe_default-apply_to_example : is_some served_info.cert ≡ true
maybe_default-apply_to_example =
    maybe_default-apply_to network refl 0 "localhost" [] [] plain certified
      (record { options = record certified { listener = some 443 }; info = some served_info })
      served_info refl default_run apply_run refl

pub real_port : (l n : ℕ) → network.tcp_port l ≡ some n → n ≢ 0
real_port l n h z = ground (arith, h, z)

abbrev pub startup : Startup network
startup = record {
  disable_watch_list = none;
  format_address = λ a p. a;
  ca_data = λ c. c;
  listener_address = λ l. "127.0.0.1:443";
  failed_to_disable = λ e. e;
  error_creating_certificates = λ e. e;
  no_serve_config = internal "no serve config";
  unable_to_generate_certificates = internal "Unable to generate certificates";
}

abbrev pub server_options : TiltServerOptions network
server_options = record { serving_options = plain; conn_provider = none }

valid_run : validate_start server_options ≡ []
unfolding validate_start validate validate_port
valid_run = refl

abbrev pub packages : TlsPackages
packages = record {
  insecure_ciphers = ("TLS_RSA_WITH_RC4_128_SHA", 5) ∷ [];
  run_controller = λ c ca cert sni. none;
  insecure_cipher = λ name. internal name;
  client_ca_failed = λ e. e;
  serving_certificate_failed = λ e. e;
  sni_certificate_failed = λ e. e;
  dynamic_certificates_failed = λ e. e;
}

abbrev pub secure : SecureServingInfo
secure = record {
  disable_http2 = false;
  min_tls_version = 772;
  cipher_suites = 4865 ∷ [];
  client_ca = none;
  cert = some (record { id = 1; is_notifier = true; run_once = some none });
  sni_certs = [];
}

abbrev pub made : TlsConfig
made = record {
  min_version = 772;
  next_protos = "h2" ∷ "http/1.1" ∷ [];
  cipher_suites = 4865 ∷ [];
  client_auth = no_client_cert;
  is_dynamic = true;
}

tls_run : (tls_config packages secure).0 ≡ ok made
unfolding tls_config static_config find_insecure insecure_name dynamic_config run_provider prime_sni
tls_run = refl

tls_config-ok_example :
    AllSecure packages.insecure_ciphers made.cipher_suites
    × (made.cipher_suites ≡ secure.cipher_suites)
    × (((secure.min_tls_version ≡ 0) × (made.min_version ≡ 771))
        ⊎ ((secure.min_tls_version ≢ 0) × (made.min_version ≡ secure.min_tls_version)))
    × ((made.is_dynamic ≡ true)
        ⊎ ((made.is_dynamic ≡ false)
            × (secure.client_ca ≡ none)
            × (secure.cert ≡ none)
            × (secure.sni_certs ≡ [])))
tls_config-ok_example = tls_config-ok packages secure made tls_run

-- Two providers of one group, which give their numbers.
abbrev pub providers : List (GroupVersionResource × ℕ)
providers =
    (record { group = "core"; version = "v1"; resource = "manifests" }, 1)
    ∷ (record { group = "core"; version = "v1"; resource = "manifests/status" }, 2)
    ∷ []

abbrev pub core_group : ApiGroupInfo ℕ
core_group = record {
  group = "core";
  storages = ("v1", ("manifests", 1) ∷ ("manifests/status", 2) ∷ []) ∷ [];
}

-- The names of a set.
abbrev pub each_once : List String → List String
each_once [] = []
each_once (n ∷ names) = let rest = each_once names in if has n rest then rest else n ∷ rest

pub each_once-has :
    (names : List String) (name : String)
    → has name names ≡ true
    → has name (each_once names) ≡ true
each_once-has [] name h = h
each_once-has (n ∷ names) name h = ground (arith, h, each_once-has names name, eq_iff n name)

pub once : OneEach providers
unfolding get_api
once = (refl, (refl, tt))

pub status_there :
    get_api (record { group = "core"; version = "v1"; resource = "manifests/status" }) providers
    ≡ some 2
unfolding get_api
status_there = refl

groups_run : build_api_group_infos ok (λ s. false) each_once providers ≡ ok (core_group ∷ [], [])
unfolding build_api_group_infos build_groups gather add_provider add_storage lookup put
groups_run = refl
