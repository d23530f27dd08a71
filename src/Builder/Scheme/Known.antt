-- ===== src/Builder/Scheme/Known.antt =====
-- About the types that the schemes know, and their conversions, once a codec is built.
use mathlib.Core.Path.{subst}
use tilt_apiserver.Base.{
  ◌≡◌, true, false, String, List, [], ◌∷◌, ◌++◌, ok, Result-cases, Option-cases, Bool-cases,
  List-cases, some, inl, inr, arith, if◌then◌else◌,
}
use tilt_apiserver.Builder.Register.{GroupVersion, GroupVersionResource, group_version}
use tilt_apiserver.Builder.Scheme.{
  SchemePackage, SchemeObject, api_version_internal, add_versions, add_object, add_to_scheme,
  set_priorities, add_group_versions, group_versions_of, register_group_versions, Registration,
  adds, adds_types, registers_versions, Builder, run_registration, run_builder, build_codec,
  to_storage_version, from_storage_version, versions_of_group,
}
use tilt_apiserver.Builder.Scheme.Types.{
  Each, Each-map, Each-append, Fact, known, converts, KnowsTypes,
}

module _ (k : SchemePackage) (l : KnowsTypes k) where
  abbrev pub Keeps : k.Scheme → k.Scheme → Type 0
  Keeps s t = (x : Fact k.Kind) → l.Holds s x → l.Holds t x

  abbrev pub Knows : k.Scheme → GroupVersion → k.Kind → Type 0
  Knows s v x = l.Holds s (known v x)

  abbrev pub internal_version : SchemeObject k → GroupVersion
  internal_version obj = record { group = obj.gvr.group; version = api_version_internal }

  -- The scheme knows the types of the object under its version, and under the internal version if it
  -- is the storage version; if it is not, it has conversions to the type of the storage version and
  -- back.
  pub record IsKnown (s : k.Scheme) (obj : SchemeObject k) : Type 0 where
    pub named : Each (Knows s (group_version obj.gvr)) (obj.new ∷ obj.new_list ∷ [])
    pub internal :
        obj.is_storage_version ≡ true
        → Each (Knows s (internal_version obj)) (obj.new ∷ obj.new_list ∷ [])
    pub converted :
        obj.is_storage_version ≡ false
        → (kind : k.Kind) × (obj.storage_kind ≡ some kind)
          × l.Holds s (converts obj.kind kind to_storage_version)
          × l.Holds s (converts kind obj.kind from_storage_version)

  abbrev pub IsDone : k.Scheme → Registration k → Type 0
  IsDone s (adds obj) = IsKnown s obj
  IsDone s (adds_types obj kinds) = Each (Knows s (group_version obj.gvr)) kinds
  IsDone s registers_versions = Unit

  add_versions-Keeps :
      (obj : SchemeObject k) (s t : k.Scheme) → add_versions k obj s ≡ ok t → Keeps s t
  unfolding add_versions
  add_versions-Keeps obj s t h x b = elim (Bool-cases obj.is_storage_version) [
    | inl p ↦
        subst (λ z. l.Holds z x) (ground (arith, h, p))
          (l.added_keeps (internal_version obj) (obj.new ∷ obj.new_list ∷ []) s x b)
    | inr p ↦ elim (Option-cases obj.storage_kind) [
      | inl q ↦ absurd (ground (arith, h, p, q))
      | inr (kind, q) ↦
          elim (Result-cases (k.add_conversion_func obj.kind kind to_storage_version s)) [
            | inr (e, r) ↦ absurd (ground (arith, h, p, q, r))
            | inl (s', r) ↦
                l.converted_keeps kind obj.kind from_storage_version s' t x
                  (ground (arith, h, p, q, r))
                  (l.converted_keeps obj.kind kind to_storage_version s s' x r b)
          ]
    ]
  ]

  IsKnown-Keeps :
      (s t : k.Scheme) (obj : SchemeObject k) → Keeps s t → IsKnown s obj → IsKnown t obj
  IsKnown-Keeps s t obj keeps h = record {
    named =
        Each-map _ _ (obj.new ∷ obj.new_list ∷ []) (λ x. keeps (known (group_version obj.gvr) x))
          h.named;
    internal = λ p.
        Each-map _ _ (obj.new ∷ obj.new_list ∷ []) (λ x. keeps (known (internal_version obj) x))
          (h.internal p);
    converted = λ p. let (kind, e, to, from) = h.converted p in (kind, e, keeps _ to, keeps _ from);
  }

  add_versions-converts :
      (obj : SchemeObject k) (s t : k.Scheme)
      → obj.is_storage_version ≡ false
      → add_versions k obj s ≡ ok t
      → (kind : k.Kind) × (obj.storage_kind ≡ some kind)
        × l.Holds t (converts obj.kind kind to_storage_version)
        × l.Holds t (converts kind obj.kind from_storage_version)
  unfolding add_versions
  add_versions-converts obj s t p h = elim (Option-cases obj.storage_kind) [
    | inl q ↦ absurd (ground (arith, h, p, q))
    | inr (kind, q) ↦
        elim (Result-cases (k.add_conversion_func obj.kind kind to_storage_version s)) [
          | inr (e, r) ↦ absurd (ground (arith, h, p, q, r))
          | inl (s', r) ↦
              let back : k.add_conversion_func kind obj.kind from_storage_version s' ≡ ok t =
                ground (arith, h, p, q, r) in
              (
                kind,
                q,
                l.converted_keeps kind obj.kind from_storage_version s' t _ back
                    (l.converts-added obj.kind kind to_storage_version s s' r),
                l.converts-added kind obj.kind from_storage_version s' t back,
              )
        ]
  ]

  add_versions-IsKnown :
      (obj : SchemeObject k) (s t : k.Scheme)
      → add_versions k obj s ≡ ok t
      → Each (Knows s (group_version obj.gvr)) (obj.new ∷ obj.new_list ∷ [])
      → IsKnown t obj
  unfolding add_versions
  add_versions-IsKnown obj s t h types = record {
    named =
        Each-map _ _ (obj.new ∷ obj.new_list ∷ [])
          (λ x. add_versions-Keeps obj s t h (known (group_version obj.gvr) x)) types;
    internal = λ p.
        subst (λ z. Each (Knows z (internal_version obj)) (obj.new ∷ obj.new_list ∷ []))
          (ground (arith, h, p))
          (l.known-added (internal_version obj) (obj.new ∷ obj.new_list ∷ []) s);
    converted = λ p. add_versions-converts obj s t p h;
  }

  default-Keeps :
      (obj : SchemeObject k) (s : k.Scheme)
      → Keeps s (if obj.is_defaulter then k.add_type_defaulting_func obj.kind s else s)
  default-Keeps obj s x b = elim (Bool-cases obj.is_defaulter) [
    | inl p ↦ rw p (l.defaulted_keeps obj.kind s x b)
    | inr p ↦ rw p b
  ]

  add_object-IsKnown :
      (obj : SchemeObject k) (s t : k.Scheme)
      → add_object k obj s ≡ ok t
      → Keeps s t × IsKnown t obj
  unfolding add_object
  add_object-IsKnown obj s t h =
      let kinds = obj.new ∷ obj.new_list ∷ [] in
      let named = k.add_known_types (group_version obj.gvr) kinds s in
      elim (Result-cases (add_versions k obj named)) [
        | inr (e, p) ↦ absurd (ground (arith, h, p))
        | inl (u, p) ↦
            let same : (if obj.is_defaulter then k.add_type_defaulting_func obj.kind u else u) ≡ t =
              ground (arith, h, p) in
            let keeps : Keeps u t = subst (Keeps u) same (default-Keeps obj u) in
            (
              λ x b. keeps x (add_versions-Keeps obj named u p x (l.added_keeps _ kinds s x b)),
              IsKnown-Keeps u t obj keeps
                  (add_versions-IsKnown obj named u p (l.known-added _ kinds s)),
            )
      ]

  set_priorities-Keeps :
      (list_of : List String → List String) (groups : List (String × List String)) (s t : k.Scheme)
      → set_priorities k list_of groups s ≡ ok t
      → Keeps s t
  unfolding set_priorities
  set_priorities-Keeps list_of [] s t h x b = subst (λ z. l.Holds z x) (ground (arith, h)) b
  set_priorities-Keeps list_of ((group, versions) ∷ groups) s t h x b =
      let priority = versions_of_group group (list_of versions) in
      elim (Result-cases (k.set_version_priority priority s)) [
        | inr (e, p) ↦ absurd (ground (arith, h, p))
        | inl (u, p) ↦
            set_priorities-Keeps list_of groups u t (ground (arith, h, p)) x
              (l.ordered_keeps priority s u x p b)
      ]

  add_group_versions-Keeps :
      (versions : List GroupVersion) (s : k.Scheme) → Keeps s (add_group_versions k versions s)
  unfolding add_group_versions
  add_group_versions-Keeps [] s x b = b
  add_group_versions-Keeps (w ∷ versions) s x b =
      add_group_versions-Keeps versions (k.add_to_group_version w s) x (l.listed_keeps w s x b)

  module _ (list_of : List String → List String) (apis : List GroupVersionResource)
      (ordered : List GroupVersion) where
    register_group_versions-Keeps :
        (s t : k.Scheme) → register_group_versions k list_of apis ordered s ≡ ok t → Keeps s t
    unfolding register_group_versions
    register_group_versions-Keeps s t h x b =
        let groups = group_versions_of k apis [] in
        elim (Result-cases (set_priorities k list_of groups s)) [
          | inr (e, p) ↦ absurd (ground (arith, h, p))
          | inl (u, p) ↦
              subst (λ z. l.Holds z x) (ground (arith, h, p))
                (add_group_versions-Keeps ordered u x
                  (set_priorities-Keeps list_of groups s u p x b))
        ]

    run_registration-IsDone :
        (r : Registration k) (s t : k.Scheme)
        → run_registration k list_of apis ordered r s ≡ ok t
        → Keeps s t × IsDone t r
    unfolding run_registration add_to_scheme
    run_registration-IsDone (adds obj) s t h = add_object-IsKnown obj s t (ground (arith, h))
    run_registration-IsDone (adds_types obj kinds) s t h =
        subst (λ z. Keeps s z × Each (Knows z (group_version obj.gvr)) kinds) (ground (arith, h))
          (λ x. l.added_keeps _ kinds s x, l.known-added _ kinds s)
    run_registration-IsDone registers_versions s t h = (register_group_versions-Keeps s t h, tt)

    IsDone-Keeps : (s t : k.Scheme) (r : Registration k) → Keeps s t → IsDone s r → IsDone t r
    IsDone-Keeps s t (adds obj) keeps h = IsKnown-Keeps s t obj keeps h
    IsDone-Keeps s t (adds_types obj kinds) keeps h =
        Each-map _ _ kinds (λ x. keeps (known (group_version obj.gvr) x)) h
    IsDone-Keeps s t registers_versions keeps h = tt

    run_builder-IsDone :
        (registrations : List (Registration k)) (s t : k.Scheme)
        → run_builder k list_of apis ordered registrations s ≡ ok t
        → Keeps s t × Each (IsDone t) registrations
    unfolding run_builder
    run_builder-IsDone [] s t h = (λ x b. subst (λ z. l.Holds z x) (ground (arith, h)) b, tt)
    run_builder-IsDone (r ∷ registrations) s t h =
        elim (Result-cases (run_registration k list_of apis ordered r s)) [
          | inr (e, p) ↦ absurd (ground (arith, h, p))
          | inl (u, p) ↦
              let (keeps, done) = run_registration-IsDone r s u p in
              let (keeps', all) = run_builder-IsDone registrations u t (ground (arith, h, p)) in
              (λ x b. keeps' x (keeps x b), (IsDone-Keeps u t r keeps' done, all))
        ]

  -- Where a scheme has the types and the conversions that are added to it and forgets none: if
  -- `buildCodec` returns a codec, then no error was recorded, and both schemes have what was
  -- registered with their builders: the types of every resource under its version, and under the
  -- internal version if it is the storage version; and for a resource of another version, the
  -- conversions to the type of its storage version and back.
  pub build_codec-IsDone :
      (list_of : List String → List String) (a a' : Builder k) (codec : k.Codec)
      → build_codec k list_of a ≡ ok (codec, a')
      → (a.errs ≡ [])
        × Each (IsDone a'.api_scheme) a.api_scheme_builder
        × Each (IsDone a'.openapi_scheme) a.openapi_scheme_builder
  unfolding build_codec
  build_codec-IsDone list_of a a' codec h =
      let run = run_builder k list_of a.apis a.ordered_group_versions in
      let done = run_builder-IsDone list_of a.apis a.ordered_group_versions in
      let apis = a.api_scheme_builder ++ registers_versions ∷ [] in
      let openapis = a.openapi_scheme_builder ++ registers_versions ∷ [] in
      elim (Result-cases (run apis a.api_scheme)) [
        | inr (e, p) ↦ absurd (ground (arith, h, p))
        | inl (api, p) ↦ elim (Result-cases (run openapis a.openapi_scheme)) [
          | inr (e, q) ↦ absurd (ground (arith, h, p, q))
          | inl (openapi, q) ↦ elim (List-cases a.errs) [
            | inr (e, errs, r) ↦ absurd (ground (arith, h, p, q, r))
            | inl r ↦ (
              r,
              subst (λ z. Each (IsDone z) a.api_scheme_builder) (ground (arith, h, p, q, r))
                  (Each-append (IsDone api) a.api_scheme_builder _
                    (done apis a.api_scheme api p).1),
              subst (λ z. Each (IsDone z) a.openapi_scheme_builder) (ground (arith, h, p, q, r))
                  (Each-append (IsDone openapi) a.openapi_scheme_builder _
                    (done openapis a.openapi_scheme openapi q).1),
            )
          ]
        ]
      ]
