-- ===== src/Server/Start.antt =====
-- pkg/server/start/start.go: `Validate`, `Config` and `loopbackClientConfig` of `TiltServerOptions`.
pub mod Loopback
use tilt_apiserver.Base.{
  ℕ, Bool, true, false, String, List, [], ◌∷◌, ◌++◌, ◌<>◌, Option, none, some, Result, ok, err,
  Error, if◌then◌else◌, ◌>>=◌,
}
use tilt_apiserver.Builder.Register.{GroupResource}
use tilt_apiserver.Server.Serving.{
  Serving, Options, ServingInfo, Port, port, port_is_zero, Complaint, apply_to, validate,
}
use tilt_apiserver.Server.Serving.Certificates.{maybe_default_with_self_signed_certs}

-- What `Config` uses of other packages: the switch of the feature gate, `fmt.Sprintf("%s:%d")`, the
-- bytes of a certificate, and the address of a listener.
pub record Startup (v : Serving) : Type 0 where
  pub disable_watch_list : Option Error
  pub format_address : String → Port → String
  pub ca_data : v.Content → String
  pub listener_address : v.Listener → String
  pub failed_to_disable : Error → Error
  pub error_creating_certificates : Error → Error
  pub no_serve_config : Error
  pub unable_to_generate_certificates : Error

-- `TiltServerOptions`, as far as the functions here read it. A provider of connections is its
-- `Listen` with the network "tcp".
pub record TiltServerOptions (v : Serving) : Type 0 where
  pub serving_options : Options v
  pub conn_provider : Option (String → Result v.Listener)

pub data StartComplaint : Type 0 where
  serving : Complaint → StartComplaint
  no_serve_port : StartComplaint

-- `rest.Config` of the loopback client; `dials` says whether it dials by the provider.
pub record LoopbackConfig : Type 0 where
  pub host : String
  pub qps : ℕ
  pub burst : ℕ
  pub ca_data : String
  pub bearer_token : String
  pub dials : Bool

-- `apiserver.Config`, without the schemes, the interfaces and the fixed authorizer and authenticator.
pub record Config (v : Serving) : Type 0 where
  pub external_address : String
  pub loopback_client_config : LoopbackConfig
  pub serving_info : ServingInfo v

abbrev tag : List Complaint → List StartComplaint
tag [] = []
tag (c ∷ complaints) = serving c ∷ tag complaints

module _ {v : Serving} where
  unfoldable pub validate_start : TiltServerOptions v → List StartComplaint
  validate_start o =
      tag (validate o.serving_options)
      ++ (if port_is_zero o.serving_options.bind_port then no_serve_port ∷ [] else [])

-- `GetRESTOptions`, which has a codec for every resource: the error, if there is none.
unfoldable pub get_rest_options : {v : Serving} → TiltServerOptions v → GroupResource → Option Error
get_rest_options o r = none

module _ {v : Serving} (u : Startup v) where
  -- `loopbackClientConfig`, which panics with no port: that is `none`.
  unfoldable pub loopback_client_config : Options v → Bool → v.Content → Option LoopbackConfig
  loopback_client_config s dials cert =
      if port_is_zero s.bind_port
      then none
      else some (record {
        host = "https://" <> u.format_address s.bind_address s.bind_port;
        qps = 50;
        burst = 100;
        ca_data = u.ca_data cert;
        bearer_token = s.bearer_token;
        dials = dials;
      })

  -- The listener of the provider of connections. The port 443 is a fake one.
  unfoldable pub connect : TiltServerOptions v → Result (Options v)
  connect o = elim o.conn_provider [
    | none ↦ ok o.serving_options
    | some listen ↦
        let s = o.serving_options in
        let s' = if port_is_zero s.bind_port then record s { bind_port = port 443 } else s in
        listen (u.format_address s'.bind_address s'.bind_port) >>= λ l.
        ok (record s' { listener = some l })
  ]

  -- The end of `Config`: `none` is the panic of the loopback configuration.
  unfoldable pub finish_config :
      Bool
      → record { options : Options v; info : Option (ServingInfo v) }
      → Option (Result (Config v))
  unfolding loopback_client_config
  finish_config dials r = elim r.info [
    | none ↦ some (err u.no_serve_config)
    | some info ↦ elim info.cert [
      | none ↦ some (err u.unable_to_generate_certificates)
      | some cert ↦ elim (loopback_client_config r.options dials cert) [
        | none ↦ none
        | some loopback ↦ some (
            ok (record {
              external_address = u.listener_address info.listener;
              loopback_client_config = loopback;
              serving_info = info;
            }))
      ]
    ]
  ]

  -- `Config` at the time `now`.
  unfoldable pub config : ℕ → TiltServerOptions v → Option (Result (Config v))
  unfolding connect finish_config
  config now o = elim u.disable_watch_list [
    | some e ↦ some (err (u.failed_to_disable e))
    | none ↦ elim (connect o) [
      | err e ↦ some (err e)
      | ok s ↦
          elim (maybe_default_with_self_signed_certs v now "localhost" [] ("127.0.0.1" ∷ []) s) [
            | err e ↦ some (err (u.error_creating_certificates e))
            | ok s' ↦ elim (apply_to v s') [
              | err e ↦ some (err e)
              | ok r ↦ finish_config (elim o.conn_provider [ none ↦ false | some listen ↦ true ]) r
            ]
          ]
    ]
  ]
