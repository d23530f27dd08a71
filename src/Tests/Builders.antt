-- ===== src/Tests/Builders.antt =====
-- The options of a server of one resource, on the port 8443 and then on the port 443.
use tilt_apiserver.Base.{◌≡◌, refl, String, [], ◌∷◌, none, ok, arith}
use tilt_apiserver.Builder.Register.{group_version}
use tilt_apiserver.Builder.Options.{
  ServerBuilder, BuiltOptions, with_bind_port, to_server_options, new_tilt_server_options,
}
use tilt_apiserver.Builder.Options.Accepted.{bind_port-accepted}
use tilt_apiserver.Server.Serving.{port}
use tilt_apiserver.Server.Serving.Flags.{set_int_flag}
use tilt_apiserver.Server.Start.{validate_start}
use tilt_apiserver.Tests.Server.{network, plain}
use tilt_apiserver.Tests.Schemes.{schemes, builder, built, manifest_object, as_listed, build_run}

abbrev one_resource : ServerBuilder network schemes String
one_resource = record {
  stdout = "stdout";
  stderr = "stderr";
  registered = builder;
  recommended_config_fns = [];
  serving = plain;
  conn_provider = none;
}

abbrev options : BuiltOptions network schemes String
options = record {
  scheme = built.api_scheme;
  codec = group_version manifest_object.gvr ∷ [];
  recommended_config_fns = [];
  options = record {
    serving_options = record plain { bind_port = port 8443 };
    conn_provider = none;
  };
  stdout = "stdout";
  stderr = "stderr";
}

options_run :
    to_server_options network schemes String as_listed
      (with_bind_port network schemes String (port 8443) one_resource)
    ≡ ok (
      options,
      record one_resource { registered = built; serving = record plain { bind_port = port 8443 } },
    )
unfolding to_server_options with_bind_port new_tilt_server_options
options_run = ground (arith, build_run)

bind_port-accepted_example :
    (validate_start options.options ≡ [])
    × (validate_start (record options.options {
      serving_options = set_int_flag "secure-port" (port 443) options.options.serving_options;
    })
        ≡ [])
bind_port-accepted_example =
    bind_port-accepted network schemes String as_listed one_resource
      (record one_resource { registered = built; serving = record plain { bind_port = port 8443 } })
      8443 443 options refl (omega arith) (omega arith) (omega arith) (omega arith) options_run
