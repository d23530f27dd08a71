-- ===== src/Builder/Options.antt =====
-- pkg/server/builder/builder_misc.go, and how builder.go makes the options of a server and its
-- command; start/ext.go, where the options change the library's configuration.
pub mod Accepted
use tilt_apiserver.Base.{
  Bool, String, List, [], ◌∷◌, ◌++◌, Option, none, some, Result, ok, err, ◌>>=◌,
}
use tilt_apiserver.Builder.Scheme.{SchemePackage, Builder, new_scheme, build_codec}
use tilt_apiserver.Server.Serving.{Serving, Options, Port, port}
use tilt_apiserver.Server.Serving.Flags.{options_at}
use tilt_apiserver.Server.Start.{TiltServerOptions}

-- The OpenAPI part of the library's configuration: the definitions with a title and a version.
pub record OpenApiConfig (D : Type 0) : Type 0 where
  pub definitions : D
  pub title : String
  pub version : String

-- `RecommendedConfig`, as far as the functions here write it.
pub record RecommendedConfig (D : Type 0) : Type 0 where
  pub open_api_v3_config : Option (OpenApiConfig D)
  pub open_api_config : Option (OpenApiConfig D)

-- `RecommendedConfigFn`
abbrev pub ConfigFn : Type 0 → Type 0
ConfigFn D = RecommendedConfig D → RecommendedConfig D

-- `ApplyRecommendedConfigFns`
unfoldable pub apply_recommended_config_fns : {D : Type 0} → List (ConfigFn D) → ConfigFn D
apply_recommended_config_fns [] config = config
apply_recommended_config_fns (f ∷ fns) config = apply_recommended_config_fns fns (f config)

-- `SetOpenAPIDefinitionFn`
unfoldable pub set_open_api_definition_fn : {D : Type 0} → String → String → D → ConfigFn D
set_open_api_definition_fn name version defs config = record {
  open_api_v3_config = some (record { definitions = defs; title = name; version = version });
  open_api_config = some (record { definitions = defs; title = name; version = version });
}

-- The certificate fields of `GeneratableKeyCert`.
pub record GeneratableKeyCert (v : Serving) : Type 0 where
  pub cert_file : String
  pub key_file : String
  pub cert_directory : String
  pub pair_name : String
  pub generated_cert : Option v.Content
  pub pregenerated_cert : Bool
  pub fixture_directory : String

module _ (v : Serving) (k : SchemePackage) (D : Type 0) where
  -- The fields of `Server` that are not about its resources. A writer is a name.
  pub record ServerBuilder : Type 0 where
    pub stdout : String
    pub stderr : String
    pub registered : Builder k
    pub recommended_config_fns : List (ConfigFn D)
    pub serving : Options v
    pub conn_provider : Option (String → Result v.Listener)

  -- `NewServerBuilder`
  unfoldable pub new_builder : ServerBuilder
  unfolding new_scheme
  new_builder = record {
    stdout = "stdout";
    stderr = "stderr";
    registered = record {
      apis = [];
      ordered_group_versions = [];
      api_scheme_builder = [];
      openapi_scheme_builder = [];
      api_scheme = new_scheme k;
      openapi_scheme = new_scheme k;
      errs = [];
    };
    recommended_config_fns = [];
    serving = options_at "127.0.0.1" (port 0) "" "";
    conn_provider = none;
  }

  unfoldable pub with_bind_port : Port → ServerBuilder → ServerBuilder
  with_bind_port p a = record a { serving = record a.serving { bind_port = p } }

  unfoldable pub with_conn_provider : (String → Result v.Listener) → ServerBuilder → ServerBuilder
  with_conn_provider listen a = record a { conn_provider = some listen }

  unfoldable pub with_open_api_definitions : String → String → D → ServerBuilder → ServerBuilder
  unfolding set_open_api_definition_fn
  with_open_api_definitions name version defs a = record a {
    recommended_config_fns =
        a.recommended_config_fns ++ set_open_api_definition_fn name version defs ∷ [];
  }

  unfoldable pub with_output_writer : String → ServerBuilder → ServerBuilder
  with_output_writer out a = record a { stdout = out; stderr = out }

  unfoldable pub with_bearer_token : String → ServerBuilder → ServerBuilder
  with_bearer_token token a = record a { serving = record a.serving { bearer_token = token } }

  unfoldable pub with_cert_key : GeneratableKeyCert v → ServerBuilder → ServerBuilder
  with_cert_key c a = record a {
    serving = record a.serving {
      cert_file = c.cert_file;
      key_file = c.key_file;
      cert_directory = c.cert_directory;
      pair_name = c.pair_name;
      generated_cert = c.generated_cert;
      pregenerated_cert = c.pregenerated_cert;
      fixture_directory = c.fixture_directory;
    };
  }

  -- The result of `NewTiltServerOptions`, with the fields that `TiltServerOptions` leaves out.
  pub record BuiltOptions : Type 0 where
    pub scheme : k.Scheme
    pub codec : k.Codec
    pub recommended_config_fns : List (ConfigFn D)
    pub options : TiltServerOptions v
    pub stdout : String
    pub stderr : String

  unfoldable pub new_tilt_server_options : k.Codec → ServerBuilder → BuiltOptions
  new_tilt_server_options codec a = record {
    scheme = a.registered.api_scheme;
    codec = codec;
    recommended_config_fns = a.recommended_config_fns;
    options = record { serving_options = a.serving; conn_provider = a.conn_provider };
    stdout = a.stdout;
    stderr = a.stderr;
  }

  -- `ToServerOptions`; `ToServerCommand` begins in the same way.
  unfoldable pub to_server_options :
      (List String → List String) → ServerBuilder → Result (BuiltOptions × ServerBuilder)
  unfolding new_tilt_server_options
  to_server_options list_of a = build_codec k list_of a.registered >>= λ r.
      let a' = record a { registered = r.1 } in ok (new_tilt_server_options r.0 a', a')

  -- `ToServerCommand`: the options of the command, whose flags then change them.
  unfoldable pub to_server_command :
      (List String → List String) → ServerBuilder → Result (BuiltOptions × ServerBuilder)
  unfolding new_tilt_server_options
  to_server_command list_of a = build_codec k list_of a.registered >>= λ r.
      let a' = record a { registered = r.1 } in ok (new_tilt_server_options r.0 a', a')
