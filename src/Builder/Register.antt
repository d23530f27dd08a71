-- ===== src/Builder/Register.antt =====
-- pkg/server/builder/builder_resource.go: how resources and subresources are registered. A map is
-- an association list, and a provider of storage is a value of an unknown type.
pub mod Versions
pub mod Lookup
pub mod Status
use tilt_apiserver.Base.{
  ◌≡◌, ◌↔◌, Bool, true, false, ◌&&◌, String, ◌<>◌, ◌=~◌, List, [], ◌∷◌, ◌++◌, Option, none, some,
  eq_iff, arith, if◌then◌else◌,
}

-- `schema.GroupVersion`, `schema.GroupVersionResource` and `schema.GroupResource`
pub record GroupVersion : Type 0 where
  pub group : String
  pub version : String

pub record GroupVersionResource : Type 0 where
  pub group : String
  pub version : String
  pub resource : String

pub record GroupResource : Type 0 where
  pub group : String
  pub resource : String

abbrev pub group_version : GroupVersionResource → GroupVersion
group_version r = record { group = r.group; version = r.version }

abbrev pub group_resource : GroupVersionResource → GroupResource
group_resource r = record { group = r.group; resource = r.resource }

abbrev pub sub_resource : GroupVersionResource → String → GroupVersionResource
sub_resource r path = record r { resource = r.resource <> ("/" <> path) }

abbrev pub same_version : GroupVersion → GroupVersion → Bool
same_version a b = a.group =~ b.group && a.version =~ b.version

abbrev pub same_resource : GroupVersionResource → GroupVersionResource → Bool
same_resource a b = a.group =~ b.group && (a.version =~ b.version && a.resource =~ b.resource)

abbrev pub same_group_resource : GroupResource → GroupResource → Bool
same_group_resource a b = a.group =~ b.group && a.resource =~ b.resource

abbrev pub has_version : GroupVersion → List GroupVersion → Bool
has_version v [] = false
has_version v (w ∷ versions) = if same_version w v then true else has_version v versions

module _ {P : Type 0} where
  -- `a.apis[gvr]`
  unfoldable pub get_api : GroupVersionResource → List (GroupVersionResource × P) → Option P
  get_api r [] = none
  get_api r ((k, p) ∷ apis) = if same_resource k r then some p else get_api r apis

  -- `a.apis[gvr] = sp`
  unfoldable pub set_api :
      GroupVersionResource → P → List (GroupVersionResource × P) → List (GroupVersionResource × P)
  set_api r p [] = (r, p) ∷ []
  set_api r p ((k, q) ∷ apis) =
      if same_resource k r then (r, p) ∷ apis else (k, q) ∷ set_api r p apis

  -- `a.storage[gr]`
  unfoldable pub get_storage : GroupResource → List (GroupResource × P) → Option P
  get_storage r [] = none
  get_storage r ((k, p) ∷ storage) =
      if same_group_resource k r then some p else get_storage r storage

-- The fields of `Server` that registration changes. `group_versions` holds the keys of the map,
-- and the two scheme builders hold the resources whose types they add.
pub record Server (P : Type 0) : Type 0 where
  pub group_versions : List GroupVersion
  pub ordered_group_versions : List GroupVersion
  pub apis : List (GroupVersionResource × P)
  pub storage : List (GroupResource × P)
  pub api_scheme : List GroupVersionResource
  pub openapi_scheme : List GroupVersionResource

-- A resource object: its name, whether it has the status subresource, and its generic subresources,
-- each with its name and what makes its provider from the parent's.
pub record ResourceObject (P : Type 0) : Type 0 where
  pub gvr : GroupVersionResource
  pub has_status : Bool
  pub generic_sub_resources : List (String × (P → P))

module _ {P : Type 0} where
  unfoldable pub new_server_builder : Server P
  new_server_builder = record {
    group_versions = [];
    ordered_group_versions = [];
    apis = [];
    storage = [];
    api_scheme = [];
    openapi_scheme = [];
  }

  -- One round of the loop of `withGroupVersions`.
  unfoldable pub with_group_version : GroupVersion → Server P → Server P
  with_group_version v a = if has_version v a.group_versions then a else record a {
    group_versions = v ∷ a.group_versions;
    ordered_group_versions = a.ordered_group_versions ++ v ∷ [];
  }

  unfoldable pub with_group_versions : List GroupVersion → Server P → Server P
  unfolding with_group_version
  with_group_versions [] a = a
  with_group_versions (v ∷ versions) a = with_group_versions versions (with_group_version v a)

  -- The storage of a group and resource is the first that was registered.
  unfoldable pub for_group_version_resource : GroupVersionResource → P → Server P → Server P
  unfolding with_group_versions set_api get_storage
  for_group_version_resource gvr sp a =
      let a' = with_group_versions (group_version gvr ∷ []) a in
      record a' {
        apis = set_api gvr sp a'.apis;
        storage = elim (get_storage (group_resource gvr) a'.storage) [
          | none ↦ (group_resource gvr, sp) ∷ a'.storage
          | some p ↦ a'.storage
        ];
      }

  unfoldable pub with_resource_and_handler : ResourceObject P → P → Server P → Server P
  unfolding for_group_version_resource
  with_resource_and_handler obj sp a = for_group_version_resource obj.gvr sp (record a {
    api_scheme = a.api_scheme ++ obj.gvr ∷ [];
    openapi_scheme = a.openapi_scheme ++ obj.gvr ∷ [];
  })

  -- A resource with no storage.
  unfoldable pub with_resource : ResourceObject P → Server P → Server P
  unfolding with_group_versions
  with_resource obj a = with_group_versions (group_version obj.gvr ∷ []) (record a {
    api_scheme = a.api_scheme ++ obj.gvr ∷ [];
    openapi_scheme = a.openapi_scheme ++ obj.gvr ∷ [];
  })

  unfoldable pub with_sub_resource_and_handler : ResourceObject P → String → P → Server P → Server P
  unfolding for_group_version_resource
  with_sub_resource_and_handler parent path sp a =
      for_group_version_resource (sub_resource parent.gvr path) sp a

  unfoldable pub with_generic_sub_resources :
      ResourceObject P → P → List (String × (P → P)) → Server P → Server P
  unfolding with_sub_resource_and_handler
  with_generic_sub_resources obj parent_sp [] a = a
  with_generic_sub_resources obj parent_sp ((name, provider) ∷ rest) a =
      with_generic_sub_resources obj parent_sp rest
        (with_sub_resource_and_handler obj name (provider parent_sp) a)

  -- `status_sp` is the provider that `statusProvider.Get` makes of the file storage.
  unfoldable pub with_subresources : ResourceObject P → P → P → Server P → Server P
  unfolding with_generic_sub_resources
  with_subresources obj status_sp parent_sp a =
      with_generic_sub_resources obj parent_sp obj.generic_sub_resources
        (if obj.has_status then with_sub_resource_and_handler obj "status" status_sp a else a)

  -- The end of `WithResourceMemoryStorage` and `WithResourceFileStorage`, for the two providers that
  -- they make (Builder/Shared).
  unfoldable pub with_resource_storage : ResourceObject P → P → P → Server P → Server P
  unfolding with_resource_and_handler with_subresources
  with_resource_storage obj sp status_sp a =
      with_subresources obj status_sp sp (with_resource_and_handler obj sp a)
