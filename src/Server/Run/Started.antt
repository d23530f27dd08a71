-- ===== src/Server/Run/Started.antt =====
-- About the steps of a run, and the end of the command.
use tilt_apiserver.Base.{
  ℕ, String, ◌≡◌, ◌≢◌, List, [], ◌∷◌, none, some, ok, err, Result-cases, Option-cases, List-cases,
  inl, inr, arith,
}
use tilt_apiserver.Server.Serving.{Serving}
use tilt_apiserver.Server.Tls.{TlsPackages, AllSecure}
use tilt_apiserver.Server.Start.{Startup, TiltServerOptions, Config, validate_start, config}
use tilt_apiserver.Server.Start.Loopback.{config_runs}
use tilt_apiserver.Server.Run.{
  RunStep, hook_added, prepared, serving, hooks_run, Backend, Runner, new_server,
  run_tilt_server_from_config, run_tilt_server, run_command,
}

-- The steps are the next ones of the protocol, after `n` steps of it: the hook is added, the server
-- is prepared, it serves with a configuration that allows no insecure cipher, it runs its hooks.
abbrev pub Follows : List (String × ℕ) → ℕ → List RunStep → Type 0
Follows ciphers n [] = Unit
Follows ciphers n (hook_added ∷ steps) = (n ≡ 0) × Follows ciphers 1 steps
Follows ciphers n (prepared ∷ steps) = (n ≡ 1) × Follows ciphers 2 steps
Follows ciphers n (serving tls ∷ steps) =
    (n ≡ 2) × AllSecure ciphers tls.cipher_suites × Follows ciphers 3 steps
Follows ciphers n (hooks_run ∷ steps) = (n ≡ 3) × Follows ciphers 4 steps

module _ {v : Serving} (u : Startup v) (b : Backend v) (n : Runner v b.generic.Server)
    (t : TlsPackages) where
  from_config-returns :
      (c : Config v)
      → ((server : b.generic.Server) → n.add_hook "start-tilt-server-informers" server ≢ none)
      → (run_tilt_server_from_config u b n t c).0 ≢ none
  unfolding run_tilt_server_from_config
  from_config-returns c hooked h = elim (Result-cases (new_server u b n t c)) [
    | inr (e, p) ↦ ground (arith, h, p)
    | inl (server, p) ↦ elim (Option-cases (n.add_hook "start-tilt-server-informers" server)) [
      | inl q ↦ hooked server q
      | inr (with_hook, q) ↦ ground (arith, h, p, q)
    ]
  ]

  -- The command does not panic outside the providers of storage, whatever its options, if listeners
  -- have ports other than 0 and the server takes its hook: it returns a server or an error.
  pub run_command-returns :
      ((l : v.Listener) (p : ℕ) → v.tcp_port l ≡ some p → p ≢ 0)
      → ((server : b.generic.Server) → n.add_hook "start-tilt-server-informers" server ≢ none)
      → (now : ℕ) (o : TiltServerOptions v) → (run_command u b n t now o).0 ≢ none
  unfolding run_command run_tilt_server
  run_command-returns real hooked now o h = elim (List-cases (validate_start o)) [
    | inr (complaint, more, p) ↦ ground (arith, h, p)
    | inl p ↦ elim (Option-cases (config u now o)) [
      | inl q ↦ config_runs v real u now o p q
      | inr (err e, q) ↦ ground (arith, h, p, q)
      | inr (ok c, q) ↦ from_config-returns c hooked (ground (arith, h, p, q))
    ]
  ]
