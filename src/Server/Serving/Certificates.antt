-- ===== src/Server/Serving/Certificates.antt =====
-- pkg/server/options/serving.go: `MaybeDefaultWithSelfSignedCerts`. The options are returned, as the
-- code mutates them; after an error the caller drops them.
use tilt_apiserver.Base.{
  ℕ, ◌≡◌, Bool, true, false, not, ◌&&◌, ◌||◌, String, ◌<>◌, List, [], ◌∷◌, ◌++◌, Option, none, some,
  Result, ok, err, ◌>>=◌, if◌then◌else◌, arith, Result-cases, inl, inr, eq_iff, Bool-cases,
}
use tilt_apiserver.Go.Paths
use tilt_apiserver.Server.Serving.{
  Serving, Options, ServingInfo, port_is_zero, is_empty, is_some, check_cert_and_key,
  ensure_listener, load_cert, apply_to,
}

module _ (v : Serving) where
  -- The paths of the certificate and the key in the directory of certificates.
  unfoldable pub with_pair_files : Options v → Options v
  with_pair_files s = record s {
    cert_file = Paths.join (s.cert_directory ∷ (s.pair_name <> ".crt") ∷ []);
    key_file = Paths.join (s.cert_directory ∷ (s.pair_name <> ".key") ∷ []);
  }

  -- The options with the files of the directory, if there is one, and whether they can be used.
  unfoldable pub find_pair :
      ℕ → Options v → Result (record { options : Options v; can_read : Bool })
  unfolding with_pair_files
  find_pair now s =
      if is_empty s.cert_directory
      then ok (record { options = s; can_read = false })
      else if is_empty s.pair_name
      then err v.pair_name_required
      else (do
        can_read ←
            check_cert_and_key v now (with_pair_files s).cert_file (with_pair_files s).key_file
        ok (record { options = with_pair_files s; can_read = can_read }))

  -- A new certificate, in the files if there are any.
  unfoldable pub generate_pair : String → List String → List String → Options v → Result (Options v)
  generate_pair public_address alternate_dns alternate_ips s =
      let unspecified = v.is_unspecified s.bind_address in
      let names = if unspecified then alternate_dns ++ "localhost" ∷ [] else alternate_dns in
      let ips = if unspecified then alternate_ips else alternate_ips ++ s.bind_address ∷ [] in
      elim (v.generate public_address ips names s.fixture_directory) [
        | err e ↦ err (v.unable_to_generate e)
        | ok pair ↦
            if not (is_empty s.cert_file) && not (is_empty s.key_file)
            then (elim (v.write_cert s.cert_file pair.cert) [
              | some e ↦ err e
              | none ↦ elim (v.write_key s.key_file pair.key) [ some e ↦ err e | none ↦ ok s ]
            ])
            else (elim (v.content_from_bytes pair.cert pair.key) [
              | err e ↦ err e
              | ok c ↦ ok (record s { generated_cert = some c })
            ])
      ]

  unfoldable pub maybe_default_with_self_signed_certs :
      ℕ → String → List String → List String → Options v → Result (Options v)
  unfolding find_pair generate_pair
  maybe_default_with_self_signed_certs now public_address alternate_dns alternate_ips s =
      if port_is_zero s.bind_port && not (is_some s.listener)
      then ok s
      else if s.pregenerated_cert
      then ok s
      else if not (is_empty s.cert_file) || not (is_empty s.key_file)
      then ok s
      else (do
        r ← find_pair now s
        if r.can_read
            then ok r.options
            else generate_pair public_address alternate_dns alternate_ips r.options)

  -- The options name a certificate, or hold one.
  abbrev pub has_cert : Options v → Bool
  has_cert s = not (is_empty s.cert_file) || (not (is_empty s.key_file) || is_some s.generated_cert)

  generate_pair-has_cert :
      (host : String) (names ips : List String) (s s' : Options v)
      → generate_pair host names ips s ≡ ok s'
      → has_cert s' ≡ true
  unfolding generate_pair
  generate_pair-has_cert host names ips s s' h = ground (arith, h)

  load_cert-has_cert :
      (s : Options v) (c : Option v.Content)
      → load_cert v s ≡ ok c
      → has_cert s ≡ true
      → is_some c ≡ true
  unfolding load_cert
  load_cert-has_cert s c h k = ground (arith, k, v.content_from_files s.cert_file s.key_file)

  ensure_listener_keeps :
      (s : Options v) (r : record { options : Options v; listener : v.Listener })
      → ensure_listener v s ≡ ok r
      → load_cert v r.options ≡ load_cert v s
  unfolding ensure_listener load_cert
  ensure_listener_keeps s r h = ground (arith, h)

  apply_to-cert :
      (s : Options v) (r : record { options : Options v; info : Option (ServingInfo v) })
      (info : ServingInfo v)
      → apply_to v s ≡ ok r
      → r.info ≡ some info
      → load_cert v s ≡ ok info.cert
  unfolding apply_to
  apply_to-cert s r info h k = ground (arith, h, k, ensure_listener_keeps s)

  module _ (unreadable : v.can_read_cert_and_key "" "" ≡ ok false) where
    find_pair-has_cert :
        (now : ℕ) (s : Options v) (r : record { options : Options v; can_read : Bool })
        → find_pair now s ≡ ok r
        → r.can_read ≡ true
        → has_cert r.options ≡ true
    unfolding find_pair check_cert_and_key
    find_pair-has_cert now s r h k = ground (
      arith,
      h,
      k,
      unreadable,
      eq_iff (with_pair_files s).cert_file "",
      eq_iff (with_pair_files s).key_file "",
    )

    defaulted-has_cert :
        (now : ℕ) (host : String) (names ips : List String) (s s' : Options v)
        → s.pregenerated_cert ≡ false
        → port_is_zero s.bind_port && not (is_some s.listener) ≡ false
        → maybe_default_with_self_signed_certs now host names ips s ≡ ok s'
        → has_cert s' ≡ true
    unfolding maybe_default_with_self_signed_certs
    defaulted-has_cert now host names ips s s' p q d = elim (Result-cases (find_pair now s)) [
      | inr (e, t) ↦ ground (arith, p, q, d, t)
      | inl (r, t) ↦ ground (
        arith,
        p,
        q,
        d,
        t,
        find_pair-has_cert now s r,
        generate_pair-has_cert host names ips r.options s',
      )
    ]

    nothing_to_serve :
        (now : ℕ) (host : String) (names ips : List String) (s s' : Options v)
        (r : record { options : Options v; info : Option (ServingInfo v) })
        → port_is_zero s.bind_port && not (is_some s.listener) ≡ true
        → maybe_default_with_self_signed_certs now host names ips s ≡ ok s'
        → apply_to v s' ≡ ok r
        → r.info ≡ none
    unfolding maybe_default_with_self_signed_certs apply_to
    nothing_to_serve now host names ips s s' r q d a = ground (arith, q, d, a)

    -- Where the certificate was not generated beforehand, and two empty file names hold no pair,
    -- options that were defaulted and then applied give a server with a certificate, if they give a
    -- server at all.
    pub maybe_default-apply_to :
        (now : ℕ) (host : String) (names ips : List String) (s s' : Options v)
        (r : record { options : Options v; info : Option (ServingInfo v) }) (info : ServingInfo v)
        → s.pregenerated_cert ≡ false
        → maybe_default_with_self_signed_certs now host names ips s ≡ ok s'
        → apply_to v s' ≡ ok r
        → r.info ≡ some info
        → is_some info.cert ≡ true
    maybe_default-apply_to now host names ips s s' r info p d a i =
        elim (Bool-cases (port_is_zero s.bind_port && not (is_some s.listener))) [
          | inl q ↦ absurd (ground (arith, i, nothing_to_serve now host names ips s s' r q d a))
          | inr q ↦
              load_cert-has_cert s' info.cert (apply_to-cert s' r info a i)
                (defaulted-has_cert now host names ips s s' p q d)
        ]
