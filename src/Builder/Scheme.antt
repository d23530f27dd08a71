-- ===== src/Builder/Scheme.antt =====
-- `AddToScheme` of pkg/server/builder/resource/types.go and `buildCodec` of pkg/server/builder/
-- builder.go: what a server registers with its schemes.
pub mod Types
pub mod Known
use tilt_apiserver.Base.{
  Bool, true, false, String, ◌=~◌, List, [], ◌∷◌, ◌++◌, Option, none, some, Result, ok, err, Error,
  internal, other, ◌>>=◌, if◌then◌else◌,
}
use tilt_apiserver.Builder.Register.{GroupVersion, GroupVersionResource, group_version}

-- The two conversions that a resource with another storage version has.
pub data Conversion : Type 0 where
  to_storage_version from_storage_version : Conversion

-- What `runtime.Scheme` does, over the Go types of objects. `add_to_group_version` is
-- `metav1.AddToGroupVersion`, and `error_list` the error `errs` of several errors.
pub record SchemePackage : Type 1 where
  pub Scheme : Type 0
  pub Kind : Type 0
  pub Codec : Type 0
  -- `runtime.NewScheme()`, and the types of `metav1` that every server has
  pub empty_scheme : Scheme
  pub unversioned_kinds : List Kind
  pub add_unversioned_types : GroupVersion → List Kind → Scheme → Scheme
  pub add_known_types : GroupVersion → List Kind → Scheme → Scheme
  pub add_conversion_func : Kind → Kind → Conversion → Scheme → Result Scheme
  pub add_type_defaulting_func : Kind → Scheme → Scheme
  pub set_version_priority : List GroupVersion → Scheme → Result Scheme
  pub add_to_group_version : GroupVersion → Scheme → Scheme
  pub legacy_codec : List GroupVersion → Scheme → Codec
  pub error_list : List Error → Error

-- `NewScheme` of pkg/server/apiserver/apiserver.go.
unfoldable pub new_scheme : (k : SchemePackage) → k.Scheme
new_scheme k =
    let unversioned : GroupVersion = record { group = ""; version = "v1" } in
    k.add_unversioned_types unversioned k.unversioned_kinds
      (k.add_to_group_version unversioned k.empty_scheme)

-- `runtime.APIVersionInternal`
abbrev pub api_version_internal : String
api_version_internal = "__internal"

-- The loop over the versions of a group.
abbrev pub versions_of_group : String → List String → List GroupVersion
versions_of_group group [] = []
versions_of_group group (version ∷ versions) =
    record { group = group; version = version } ∷ versions_of_group group versions

module _ (k : SchemePackage) where
  -- A resource object: the types of itself, of what `New` and `NewList` return, and of what
  -- `NewStorageVersionObject` returns if it is a `MultiVersionObject`.
  pub record SchemeObject : Type 0 where
    pub gvr : GroupVersionResource
    pub kind : k.Kind
    pub new : k.Kind
    pub new_list : k.Kind
    pub is_storage_version : Bool
    pub storage_kind : Option k.Kind
    pub is_defaulter : Bool

  -- The branch of `AddToScheme` on `IsStorageVersion`.
  unfoldable pub add_versions : SchemeObject → k.Scheme → Result k.Scheme
  add_versions obj s =
      if obj.is_storage_version
      then ok (
          k.add_known_types (record { group = obj.gvr.group; version = api_version_internal })
            (obj.new ∷ obj.new_list ∷ []) s)
      else (elim obj.storage_kind [
        | none ↦
            err
              (internal "resource should implement MultiVersionObject if it's not storage-version")
        | some storage_kind ↦
            k.add_conversion_func obj.kind storage_kind to_storage_version s >>= λ s'.
            k.add_conversion_func storage_kind obj.kind from_storage_version s'
      ])

  -- One round of the loop of `AddToScheme`.
  unfoldable pub add_object : SchemeObject → k.Scheme → Result k.Scheme
  unfolding add_versions
  add_object obj s =
      add_versions obj (k.add_known_types (group_version obj.gvr) (obj.new ∷ obj.new_list ∷ []) s)
      >>= λ s'. ok (if obj.is_defaulter then k.add_type_defaulting_func obj.kind s' else s')

  unfoldable pub add_to_scheme : List SchemeObject → k.Scheme → Result k.Scheme
  unfolding add_object
  add_to_scheme [] s = ok s
  add_to_scheme (obj ∷ objs) s = add_object obj s >>= λ s'. add_to_scheme objs s'

  -- `groupVersions` of `registerGroupVersions`: the versions that were inserted for each group.
  unfoldable pub insert_version :
      GroupVersionResource → List (String × List String) → List (String × List String)
  insert_version gvr [] = (gvr.group, gvr.version ∷ []) ∷ []
  insert_version gvr ((group, versions) ∷ groups) =
      if group =~ gvr.group
      then (group, versions ++ gvr.version ∷ []) ∷ groups
      else (group, versions) ∷ insert_version gvr groups

  unfoldable pub group_versions_of :
      List GroupVersionResource → List (String × List String) → List (String × List String)
  unfolding insert_version
  group_versions_of [] groups = groups
  group_versions_of (gvr ∷ apis) groups = group_versions_of apis (insert_version gvr groups)

  unfoldable pub set_priorities :
      (List String → List String) → List (String × List String) → k.Scheme → Result k.Scheme
  set_priorities list_of [] s = ok s
  set_priorities list_of ((group, versions) ∷ groups) s =
      k.set_version_priority (versions_of_group group (list_of versions)) s >>= λ s'.
      set_priorities list_of groups s'

  unfoldable pub add_group_versions : List GroupVersion → k.Scheme → k.Scheme
  add_group_versions [] s = s
  add_group_versions (v ∷ versions) s = add_group_versions versions (k.add_to_group_version v s)

  -- `registerGroupVersions`, for the keys of `apis`. `list_of` lists a set of names.
  unfoldable pub register_group_versions :
      (List String → List String)
      → List GroupVersionResource
      → List GroupVersion
      → k.Scheme
      → Result k.Scheme
  unfolding group_versions_of set_priorities add_group_versions
  register_group_versions list_of apis ordered s =
      set_priorities list_of (group_versions_of apis []) s >>= λ s'.
      ok (add_group_versions ordered s')

  -- What a scheme builder calls: `AddToScheme` of a resource, a function that only adds types under
  -- the resource's version, or `registerGroupVersions`.
  pub data Registration : Type 0 where
    adds : SchemeObject → Registration
    adds_types : SchemeObject → List k.Kind → Registration
    registers_versions : Registration

  -- The fields of `Server` that `buildCodec` reads.
  pub record Builder : Type 0 where
    pub apis : List GroupVersionResource
    pub ordered_group_versions : List GroupVersion
    pub api_scheme_builder : List Registration
    pub openapi_scheme_builder : List Registration
    pub api_scheme : k.Scheme
    pub openapi_scheme : k.Scheme
    pub errs : List Error

  module _ (list_of : List String → List String) (apis : List GroupVersionResource)
      (ordered : List GroupVersion) where
    unfoldable pub run_registration : Registration → k.Scheme → Result k.Scheme
    unfolding add_to_scheme register_group_versions
    run_registration (adds obj) s = add_to_scheme (obj ∷ []) s
    run_registration (adds_types obj kinds) s =
        ok (k.add_known_types (group_version obj.gvr) kinds s)
    run_registration registers_versions s = register_group_versions list_of apis ordered s

    -- `AddToScheme` of a scheme builder.
    unfoldable pub run_builder : List Registration → k.Scheme → Result k.Scheme
    unfolding run_registration
    run_builder [] s = ok s
    run_builder (r ∷ registrations) s = run_registration r s >>= λ s'. run_builder registrations s'

  -- `buildCodec`: the codec, and the builder with its schemes filled. The scheme builders keep the
  -- new registration. What is left of the builder after an error is not modelled.
  unfoldable pub build_codec : (List String → List String) → Builder → Result (k.Codec × Builder)
  unfolding run_builder
  build_codec list_of a = do
    api ←
        run_builder list_of a.apis a.ordered_group_versions
          (a.api_scheme_builder ++ registers_versions ∷ []) a.api_scheme
    openapi ←
        run_builder list_of a.apis a.ordered_group_versions
          (a.openapi_scheme_builder ++ registers_versions ∷ []) a.openapi_scheme
    elim a.errs [
      | e ∷ errs ↦ err (k.error_list a.errs)
      | [] ↦ ok (
        k.legacy_codec a.ordered_group_versions api,
        record a {
          api_scheme_builder = a.api_scheme_builder ++ registers_versions ∷ [];
          openapi_scheme_builder = a.openapi_scheme_builder ++ registers_versions ∷ [];
          api_scheme = api;
          openapi_scheme = openapi;
        },
      )
    ]
