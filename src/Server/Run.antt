-- ===== src/Server/Run.antt =====
-- The rest of pkg/server/start/start.go: the run of a server, and the command that starts one.
pub mod Started
use tilt_apiserver.Base.{
  ℕ, Bool, true, false, String, List, [], ◌∷◌, ◌++◌, Option, none, some, Result, ok, err, Error,
}
use tilt_apiserver.Server.Serving.{Serving, ServingInfo}
use tilt_apiserver.Server.Tls.{Provider, SecureServingInfo, TlsConfig, TlsPackages, tls_config}
use tilt_apiserver.Builder.Register.{GroupVersionResource}
use tilt_apiserver.Server.ApiServer.{GenericServer, complete, new_tilt_server}
use tilt_apiserver.Server.Start.{
  Startup, TiltServerOptions, StartComplaint, Config, validate_start, config,
}

-- What a run does with the library's server, in order.
pub data RunStep : Type 0 where
  hook_added prepared hooks_run : RunStep
  serving : TlsConfig → RunStep

-- What a server is made of: the providers of the options, what they give, and the library's server.
-- A provider of files panics if its directory cannot be made (`new_filepath_rest`), which ends the
-- program while the API groups are built: the runs here are those in which none does.
pub record Backend (v : Serving) : Type 1 where
  pub StorageProvider : Type 0
  pub Storage : Type 0
  pub generic : GenericServer (Config v) Storage
  pub apis : List (GroupVersionResource × StorageProvider)
  pub provide : StorageProvider → Result Storage
  pub is_defaulter : Storage → Bool
  pub list_of : List String → List String

-- What a run uses of the library: the server's answer to a new hook (`AddPostStartHookOrDie` ends
-- the program if it is refused), `PrepareRun`, `RunServer`, and `RunPostStartHooks`. `provider_of` is
-- a certificate as TLSConfig sees it, and `aggregate` the error of the complaints of `Validate`.
pub record Runner (v : Serving) (Server : Type 0) : Type 0 where
  pub add_hook : String → Server → Option Server
  pub prepare_run : Server → Server
  pub run_server : v.Listener → TlsConfig → Server → Result Server
  pub run_post_start_hooks : Server → Server
  pub provider_of : v.Content → Provider
  pub aggregate : StartComplaint → List StartComplaint → Error

module _ {v : Serving} (u : Startup v) (b : Backend v) (n : Runner v b.generic.Server)
    (t : TlsPackages) where
  abbrev provider_of_cert : Option v.Content → Option Provider
  provider_of_cert none = none
  provider_of_cert (some cert) = some (n.provider_of cert)

  abbrev providers_of : List v.Content → List Provider
  providers_of [] = []
  providers_of (cert ∷ certs) = n.provider_of cert ∷ providers_of certs

  -- The serving information as TLSConfig reads it: `ApplyTo` sets no client CA, and leaves HTTP/2 on.
  abbrev pub secure_info : ServingInfo v → SecureServingInfo
  secure_info info = record {
    disable_http2 = false;
    min_tls_version = info.min_tls_version;
    cipher_suites = info.cipher_suites;
    client_ca = none;
    cert = provider_of_cert info.cert;
    sni_certs = providers_of info.sni_certs;
  }

  -- The end of `RunTiltServerFromConfig`, with the hook added and the server prepared.
  unfoldable pub serve : ServingInfo v → b.generic.Server → Result b.generic.Server × List RunStep
  serve info server = elim (tls_config t (secure_info info)).0 [
    | err e ↦ (err e, [])
    | ok tls ↦ elim (n.run_server info.listener tls server) [
      | err e ↦ (err e, serving tls ∷ [])
      | ok running ↦ (ok (n.run_post_start_hooks running), serving tls ∷ hooks_run ∷ [])
    ]
  ]

  -- `config.Complete()` and the `New()` of what it returns.
  unfoldable pub new_server : Config v → Result b.generic.Server
  new_server c =
      let (completed, c') = complete b.generic (record { generic_config = c; apis = b.apis }) in
      new_tilt_server b.generic b.provide b.is_defaulter b.list_of completed

  -- `RunTiltServerFromConfig`: `none` is the end of the program.
  unfoldable pub run_tilt_server_from_config :
      Config v → Option (Result b.generic.Server) × List RunStep
  unfolding serve
  run_tilt_server_from_config c = elim (new_server c) [
    | err e ↦ (some (err e), [])
    | ok server ↦ elim (n.add_hook "start-tilt-server-informers" server) [
      | none ↦ (none, [])
      | some hooked ↦
          let (r, steps) = serve c.serving_info (n.prepare_run hooked) in
          (some r, hook_added ∷ prepared ∷ steps)
    ]
  ]

  -- `RunTiltServer` at the time `now`.
  unfoldable pub run_tilt_server :
      ℕ → TiltServerOptions v → Option (Result b.generic.Server) × List RunStep
  unfolding run_tilt_server_from_config
  run_tilt_server now o = elim (config u now o) [
    | none ↦ (none, [])
    | some (err e) ↦ (some (err e), [])
    | some (ok c) ↦ run_tilt_server_from_config c
  ]

  -- `RunE` of the command, up to the wait for the end of the server. `Complete` does nothing.
  unfoldable pub run_command :
      ℕ → TiltServerOptions v → Option (Result b.generic.Server) × List RunStep
  unfolding run_tilt_server
  run_command now o = elim (validate_start o) [
    | complaint ∷ more ↦ (some (err (n.aggregate complaint more)), [])
    | [] ↦ run_tilt_server now o
  ]
