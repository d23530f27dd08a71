-- ===== src/Builder/Options/Accepted.antt =====
-- About the options of a server that a builder made.
use tilt_apiserver.Base.{
  ℕ, ◌≡◌, ◌≤◌, refl, String, List, [], ◌∷◌, ◌++◌, none, some, ok, Result-cases, inl, inr, arith,
}
use tilt_apiserver.Builder.Scheme.{SchemePackage, build_codec}
use tilt_apiserver.Server.Serving.{Serving, port, validate, validate_port}
use tilt_apiserver.Server.Serving.Flags.{set_int_flag, flags, find_flag}
use tilt_apiserver.Server.Start.{TiltServerOptions, validate_start}
use tilt_apiserver.Builder.Options.{
  ServerBuilder, BuiltOptions, ConfigFn, RecommendedConfig, with_bind_port, to_server_options,
  new_tilt_server_options, apply_recommended_config_fns, with_open_api_definitions,
  set_open_api_definition_fn,
}

accepted :
    (v : Serving) (o : TiltServerOptions v) (n : ℕ)
    → o.serving_options.bind_port ≡ port n
    → o.serving_options.generated_cert ≡ none
    → 1 ≤ n
    → n ≤ 65535
    → validate_start o ≡ []
unfolding validate_start validate validate_port
accepted v o n e c low high = ground (arith, e, c, low, high)

apply-last :
    {D : Type 0} (fns : List (ConfigFn D)) (f : ConfigFn D) (config : RecommendedConfig D)
    → apply_recommended_config_fns (fns ++ f ∷ []) config
      ≡ f (apply_recommended_config_fns fns config)
unfolding apply_recommended_config_fns
apply-last [] f config = refl
apply-last (g ∷ fns) f config = apply-last fns f (g config)

module _ (v : Serving) (k : SchemePackage) (D : Type 0) where
  built_serving :
      (list_of : List String → List String) (a a' : ServerBuilder v k D)
      (built : BuiltOptions v k D)
      → to_server_options v k D list_of a ≡ ok (built, a')
      → built.options.serving_options ≡ a.serving
  unfolding to_server_options new_tilt_server_options
  built_serving list_of a a' built h = elim (Result-cases (build_codec k list_of a.registered)) [
    | inr (e, q) ↦ absurd (ground (arith, h, q))
    | inl (r, q) ↦ ground (arith, h, q)
  ]

  with_bind_port-serving :
      (a : ServerBuilder v k D) (p : ℕ)
      → (with_bind_port v k D (port p) a).serving ≡ record a.serving { bind_port = port p }
  unfolding with_bind_port
  with_bind_port-serving a p = refl

  -- The options of a server whose builder has no certificates of its own and was given a port from 1
  -- to 65535 are accepted by `Validate`, and so they are after the flag for another such port.
  pub bind_port-accepted :
      (list_of : List String → List String) (a a' : ServerBuilder v k D) (p q : ℕ)
      (built : BuiltOptions v k D)
      → a.serving.generated_cert ≡ none
      → 1 ≤ p
      → p ≤ 65535
      → 1 ≤ q
      → q ≤ 65535
      → to_server_options v k D list_of (with_bind_port v k D (port p) a) ≡ ok (built, a')
      → (validate_start built.options ≡ [])
        × (validate_start (record built.options {
          serving_options = set_int_flag "secure-port" (port q) built.options.serving_options;
        })
            ≡ [])
  unfolding set_int_flag find_flag flags
  bind_port-accepted list_of a a' p q built none_given low high low' high' h =
      let e = built_serving list_of (with_bind_port v k D (port p) a) a' built h in
      (
        accepted v built.options p (ground (arith, e, with_bind_port-serving a p))
            (ground (arith, e, with_bind_port-serving a p, none_given)) low high,
        accepted v
            (record built.options {
              serving_options = record built.options.serving_options { bind_port = port q };
            })
            q refl (ground (arith, e, with_bind_port-serving a p, none_given)) low' high',
      )

  -- The definitions that were given last are the ones of the configuration, with their name and
  -- version, whatever the builder's other functions are.
  pub open_api-last :
      (a : ServerBuilder v k D) (name version : String) (defs : D) (config : RecommendedConfig D)
      → apply_recommended_config_fns
          (with_open_api_definitions v k D name version defs a).recommended_config_fns
          config
        ≡ record {
          open_api_v3_config =
              some (record { definitions = defs; title = name; version = version });
          open_api_config = some (record { definitions = defs; title = name; version = version });
        }
  unfolding with_open_api_definitions
  open_api-last a name version defs config =
      apply-last a.recommended_config_fns (set_open_api_definition_fn name version defs) config
