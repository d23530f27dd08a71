-- ===== src/Tests/Run.antt =====
-- A server that is made of one group, and runs of the command.
use tilt_apiserver.Base.{
  ◌≡◌, ◌≢◌, refl, ℕ, true, false, String, List, [], ◌∷◌, ◌++◌, none, some, ok, internal, arith,
}
use tilt_apiserver.Server.Serving.{
  apply_to, ensure_listener, create_listener, load_cert, load_sni, load_suites,
}
use tilt_apiserver.Server.Serving.Certificates.{
  maybe_default_with_self_signed_certs, find_pair, generate_pair,
}
use tilt_apiserver.Server.Tls.{
  tls_config, find_insecure, insecure_name, static_config, dynamic_config, run_provider, prime_sni,
}
use tilt_apiserver.Server.ApiGroups.{
  ApiGroupInfo, lookup, put, add_storage, add_provider, gather, build_groups, build_api_group_infos,
}
use tilt_apiserver.Server.Start.{Config, config, connect, finish_config, loopback_client_config}
use tilt_apiserver.Server.ApiServer.{
  GenericServer, CompletedConfig, complete, install_api_groups, new_tilt_server,
}
use tilt_apiserver.Server.ApiServer.Installed.{Installs}
use tilt_apiserver.Server.Run.{
  Backend, Runner, new_server, serve, run_tilt_server_from_config, run_tilt_server, run_command,
}
use tilt_apiserver.Server.Run.Started.{run_command-returns}
use tilt_apiserver.Tests.Server.{
  network, startup, server_options, packages, providers, core_group, each_once, real_port,
}

-- A generic server that is the list of its groups.
abbrev pub groups_with : (C : Type 0) → GenericServer C ℕ
groups_with C = record {
  Completed = Unit;
  Server = List (ApiGroupInfo ℕ);
  set_effective_version = λ c. c;
  complete = λ c. tt;
  new = λ name c. ok [];
  install_api_group = λ info server. ok (server ++ info ∷ []);
}

abbrev pub groups : GenericServer Unit ℕ
groups = groups_with Unit

pub groups_of-new :
    (name : String) (c : Unit {0}) (server : List (ApiGroupInfo ℕ))
    → groups.new name c ≡ ok server
    → server ≡ []
groups_of-new name c server h = ground (arith, h)

pub groups_of-install :
    (info : ApiGroupInfo ℕ) (server server' : List (ApiGroupInfo ℕ))
    → groups.install_api_group info server ≡ ok server'
    → server' ≡ server ++ info ∷ []
groups_of-install info server server' h = ground (arith, h)

abbrev pub installs : Installs groups
installs = record {
  groups_of = λ server. server;
  groups_of-new = groups_of-new;
  groups_of-install = groups_of-install;
}

abbrev two_providers : CompletedConfig groups ℕ
two_providers = record { generic_config = tt; apis = providers }

new_run : new_tilt_server groups ok (λ s. false) each_once two_providers ≡ ok (core_group ∷ [])
unfolding new_tilt_server install_api_groups build_api_group_infos build_groups gather add_provider
    add_storage lookup put
new_run = refl

-- A server of the two providers, which takes every hook.
abbrev backend : Backend network
backend = record {
  StorageProvider = ℕ;
  Storage = ℕ;
  generic = groups_with (Config network);
  apis = providers;
  provide = ok;
  is_defaulter = λ s. false;
  list_of = each_once;
}

abbrev runner : Runner network (List (ApiGroupInfo ℕ))
runner = record {
  add_hook = λ name server. some server;
  prepare_run = λ server. server;
  run_server = λ listener tls server. ok server;
  run_post_start_hooks = λ server. server;
  provider_of = λ cert. record { id = 1; is_notifier = true; run_once = none };
  aggregate = λ complaint more. internal "invalid options";
}

started_run :
    (run_tilt_server startup backend runner packages 0 server_options).0
    ≡ some (ok (core_group ∷ []))
unfolding run_tilt_server run_tilt_server_from_config new_server complete new_tilt_server
    install_api_groups build_api_group_infos build_groups gather add_provider add_storage lookup put
    serve config connect finish_config loopback_client_config maybe_default_with_self_signed_certs
    find_pair generate_pair apply_to ensure_listener create_listener load_cert load_sni load_suites
    tls_config find_insecure insecure_name static_config dynamic_config run_provider prime_sni
started_run = refl

run_command-returns_example :
    (run_command startup backend runner packages 0 server_options).0 ≢ none
run_command-returns_example =
    run_command-returns startup backend runner packages real_port (λ server e. ground (arith, e)) 0
      server_options
