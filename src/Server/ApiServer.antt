-- ===== src/Server/ApiServer.antt =====
-- pkg/server/apiserver/apiserver.go and conn.go: the server made of a configuration, and connections
-- over one network.
pub mod Installed
use tilt_apiserver.Base.{String, Bool, List, [], ◌∷◌, Result, ok, err, ◌>>=◌}
use tilt_apiserver.Builder.Register.{GroupVersionResource}
use tilt_apiserver.Server.ApiGroups.{ApiGroupInfo, build_api_group_infos}

-- What `genericapiserver` does: it completes a configuration, whose effective version was set, makes
-- a server of it, and installs a group of resources.
pub record GenericServer (C S : Type 0) : Type 1 where
  pub Completed : Type 0
  pub Server : Type 0
  pub set_effective_version : C → C
  pub complete : C → Completed
  pub new : String → Completed → Result Server
  pub install_api_group : ApiGroupInfo S → Server → Result Server

-- `Config`: what is read of the extra configuration is the map of the providers.
pub record ApiConfig (C P : Type 0) : Type 0 where
  pub generic_config : C
  pub apis : List (GroupVersionResource × P)

pub record CompletedConfig {C S : Type 0} (gs : GenericServer C S) (P : Type 0) : Type 0 where
  pub generic_config : gs.Completed
  pub apis : List (GroupVersionResource × P)

module _ {C S : Type 0} (gs : GenericServer C S) where
  -- `Complete`, which also changes its receiver.
  unfoldable pub complete : {P : Type 0} → ApiConfig C P → CompletedConfig gs P × ApiConfig C P
  complete cfg =
      let versioned = gs.set_effective_version cfg.generic_config in
      (
        record { generic_config = gs.complete versioned; apis = cfg.apis },
        record cfg { generic_config = versioned },
      )

  unfoldable pub install_api_groups : List (ApiGroupInfo S) → gs.Server → Result gs.Server
  install_api_groups [] server = ok server
  install_api_groups (info ∷ infos) server =
      gs.install_api_group info server >>= λ next. install_api_groups infos next

  -- `New` of a completed configuration.
  unfoldable pub new_tilt_server :
      {P : Type 0}
      → (P → Result S)
      → (S → Bool)
      → (List String → List String)
      → CompletedConfig gs P
      → Result gs.Server
  unfolding install_api_groups
  new_tilt_server provide is_defaulter list_of c = do
    server ← gs.new "tilt-apiserver" c.generic_config
    groups ← build_api_group_infos provide is_defaulter list_of c.apis
    install_api_groups groups.0 server

-- `ConnProvider`, for connections and listeners of unknown types and a state of the networks.
pub record ConnProvider (Conn Listener W : Type 0) : Type 0 where
  pub dial : String → String → W → Result Conn × W
  pub dial_context : String → String → W → Result Conn × W
  pub listen : String → String → W → Result Listener × W

-- `NetworkConnProvider`
unfoldable pub network_conn_provider :
    {Conn Listener W : Type 0}
    → ConnProvider Conn Listener W
    → String
    → ConnProvider Conn Listener W
network_conn_provider p network = record {
  dial = λ n address. p.dial network address;
  dial_context = λ n address. p.dial_context network address;
  listen = λ n address. p.listen network address;
}
