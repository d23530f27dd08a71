-- ===== src/Server/Start/Loopback.antt =====
-- About the configuration of the loopback client.
use tilt_apiserver.Base.{
  ℕ, ◌≡◌, ◌≢◌, Bool, true, false, String, ◌=~◌, List, [], ◌∷◌, ◌++◌, Option, none, some, ok, arith,
  Result-cases, Option-cases, Bool-cases, inl, inr, if◌then◌else◌, ap, ◌∙◌,
}
use tilt_apiserver.Server.Serving.{
  Serving, Options, ServingInfo, port_is_zero, apply_to, ensure_listener, create_listener,
}
use tilt_apiserver.Server.Serving.Certificates.{
  maybe_default_with_self_signed_certs, find_pair, with_pair_files, generate_pair,
}
use tilt_apiserver.Server.Start.{
  Startup, TiltServerOptions, validate_start, loopback_client_config, connect, finish_config,
  config,
}

append_not_nil : {A : Type 0} (xs : List A) (x : A) → xs ++ x ∷ [] ≢ []
append_not_nil [] x h = ground arith
append_not_nil (y ∷ xs) x h = ground arith

module _ (v : Serving) (real_port : (l : v.Listener) (n : ℕ) → v.tcp_port l ≡ some n → n ≢ 0) where
  create_listener-port :
      (network addr : String) (r : record { listener : v.Listener; port : ℕ })
      → create_listener v network addr ≡ ok r
      → r.port ≢ 0
  unfolding create_listener
  create_listener-port network addr r h z =
      elim (Result-cases (v.listen (if network =~ "" then "tcp" else network) addr)) [
        | inr (e, p) ↦ ground (arith, h, p)
        | inl (l, p) ↦ elim (Option-cases (v.tcp_port l)) [
          | inl q ↦ ground (arith, h, p, q)
          | inr (n, q) ↦ ground (arith, h, p, q, z, real_port l n)
        ]
      ]

  ensure_listener-port :
      (s : Options v) (r : record { options : Options v; listener : v.Listener })
      → port_is_zero s.bind_port ≡ false
      → ensure_listener v s ≡ ok r
      → port_is_zero r.options.bind_port ≡ false
  unfolding ensure_listener
  ensure_listener-port s r p h =
      elim (Result-cases
        (create_listener v s.bind_network (v.join_host_port s.bind_address s.bind_port))) [
          | inr (e, q) ↦ ground (arith, p, h, q)
          | inl (l, q) ↦ ground (
            arith,
            p,
            h,
            q,
            create_listener-port s.bind_network (v.join_host_port s.bind_address s.bind_port) l,
          )
        ]

  apply_to-port :
      (s : Options v) (r : record { options : Options v; info : Option (ServingInfo v) })
      → port_is_zero s.bind_port ≡ false
      → apply_to v s ≡ ok r
      → port_is_zero r.options.bind_port ≡ false
  unfolding apply_to
  apply_to-port s r p h = elim (Result-cases (ensure_listener v s)) [
    | inr (e, q) ↦ ground (arith, p, h, q)
    | inl (l, q) ↦ ground (arith, p, h, q, ensure_listener-port s l)
  ]

  generate_pair-port :
      (host : String) (names ips : List String) (s s' : Options v)
      → generate_pair v host names ips s ≡ ok s'
      → s'.bind_port ≡ s.bind_port
  unfolding generate_pair
  generate_pair-port host names ips s s' h = ground (arith, h)

  find_pair-port :
      (now : ℕ) (s : Options v) (r : record { options : Options v; can_read : Bool })
      → find_pair v now s ≡ ok r
      → r.options.bind_port ≡ s.bind_port
  unfolding find_pair with_pair_files
  find_pair-port now s r h = ground (arith, h)

  maybe_default-port :
      (now : ℕ) (host : String) (names ips : List String) (s s' : Options v)
      → maybe_default_with_self_signed_certs v now host names ips s ≡ ok s'
      → s'.bind_port ≡ s.bind_port
  unfolding maybe_default_with_self_signed_certs
  maybe_default-port now host names ips s s' h = elim (Result-cases (find_pair v now s)) [
    | inr (e, t) ↦ ground (arith, h, t)
    | inl (r, t) ↦
        ground (arith, h, t, find_pair-port now s r, generate_pair-port host names ips r.options s')
  ]

  module _ (u : Startup v) where
    connect-port :
        (o : TiltServerOptions v) (s : Options v)
        → port_is_zero o.serving_options.bind_port ≡ false
        → connect u o ≡ ok s
        → port_is_zero s.bind_port ≡ false
    unfolding connect
    connect-port o s p h = ground (arith, p, h)

    finish_config-runs :
        (dials : Bool) (r : record { options : Options v; info : Option (ServingInfo v) })
        → port_is_zero r.options.bind_port ≡ false
        → finish_config u dials r ≢ none
    unfolding finish_config loopback_client_config
    finish_config-runs dials r p h = ground (arith, p, h)

    validate_start-port :
        (o : TiltServerOptions v)
        → validate_start o ≡ []
        → port_is_zero o.serving_options.bind_port ≡ false
    unfolding validate_start
    validate_start-port o h = elim (Bool-cases (port_is_zero o.serving_options.bind_port)) [
      | inr e ↦ e
      | inl e ↦ absurd (append_not_nil _ _ (rw e at h))
    ]

    -- Where the options are those that `Validate` accepts, `Config` ends with a configuration or
    -- an error: the loopback configuration does not panic, if listeners have ports other than 0.
    pub config_runs :
        (now : ℕ) (o : TiltServerOptions v) → validate_start o ≡ [] → config u now o ≢ none
    unfolding config validate_start
    config_runs now o valid h =
        let p = validate_start-port o valid in
        elim (Result-cases (connect u o)) [
          | inr (e, q) ↦ ground (arith, h, q)
          | inl (s, q) ↦
              elim (Result-cases
                (maybe_default_with_self_signed_certs v now "localhost" [] ("127.0.0.1" ∷ []) s)) [
                  | inr (e, t) ↦ ground (arith, h, q, t)
                  | inl (s', t) ↦ elim (Result-cases (apply_to v s')) [
                    | inr (e, a) ↦ ground (arith, h, q, t, a)
                    | inl (r, a) ↦
                        finish_config-runs
                          (elim o.conn_provider [ none ↦ false | some listen ↦ true ]) r
                          (apply_to-port s' r
                            (ap port_is_zero
                                (maybe_default-port now "localhost" [] ("127.0.0.1" ∷ []) s s' t)
                              ∙ connect-port o s p q)
                            a)
                          (ground (arith, h, q, t, a))
                  ]
                ]
        ]
