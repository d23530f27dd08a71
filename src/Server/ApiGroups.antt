-- ===== src/Server/ApiGroups.antt =====
-- pkg/server/apiserver/ext.go: `buildAPIGroupInfos`. A map is an association list, which is gone
-- through in one of its orders.
pub mod Served
use tilt_apiserver.Base.{
  ◌≡◌, ◌∙◌, refl, Bool, true, false, ◌&&◌, String, ◌=~◌, List, [], ◌∷◌, ◌++◌, Option, none, some,
  Result, ok, err, arith, eq_iff, eq_refl, Result-cases, Bool-cases, Option-cases, inl, inr,
  if◌then◌else◌, ◌>>=◌,
}
use tilt_apiserver.Builder.Register.{GroupVersionResource, get_api, same_resource}

-- `apis[key]` and `apis[key] = a`
unfoldable pub lookup : {A : Type 0} → String → List (String × A) → Option A
lookup key [] = none
lookup key ((k, a) ∷ entries) = if k =~ key then some a else lookup key entries

unfoldable pub put : {A : Type 0} → String → A → List (String × A) → List (String × A)
put key a [] = (key, a) ∷ []
put key a ((k, b) ∷ entries) = if k =~ key then (key, a) ∷ entries else (k, b) ∷ put key a entries

-- `VersionedResourcesStorageMap`
abbrev pub Storages : Type 0 → Type 0
Storages S = List (String × List (String × S))

-- `APIGroupInfo`, without what is the same for every group.
pub record ApiGroupInfo (S : Type 0) : Type 0 where
  pub group : String
  pub storages : Storages S

-- What the loop over the map of the providers has gathered: the storages of the group, and the
-- storages for which the scheme got a defaulting function.
pub record Gathered (S : Type 0) : Type 0 where
  pub storages : Storages S
  pub defaulting : List S

module _ {S : Type 0} where
  abbrev pub resources_of : Option (List (String × S)) → List (String × S)
  resources_of none = []
  resources_of (some resources) = resources

  -- `apis[gvr.Version][gvr.Resource] = storage`, where the inner map is made if it is missing.
  unfoldable pub add_storage : GroupVersionResource → S → Storages S → Storages S
  unfolding lookup put
  add_storage r storage apis =
      put r.version (put r.resource storage (resources_of (lookup r.version apis))) apis

  -- The storage that a map of a group has for a resource.
  abbrev pub served : GroupVersionResource → Storages S → Option S
  served r apis = lookup r.resource (resources_of (lookup r.version apis))

module _ {P S : Type 0} (provide : P → Result S) (is_defaulter : S → Bool) where
  -- One provider of the group.
  unfoldable pub add_provider : GroupVersionResource → P → Gathered S → Result (Gathered S)
  unfolding add_storage
  add_provider r p acc = elim (provide p) [
    | err e ↦ err e
    | ok storage ↦ ok (record {
      storages = add_storage r storage acc.storages;
      defaulting = if is_defaulter storage then acc.defaulting ++ storage ∷ [] else acc.defaulting;
    })
  ]

  unfoldable pub gather :
      String → List (GroupVersionResource × P) → Gathered S → Result (Gathered S)
  unfolding add_provider
  gather group [] acc = ok acc
  gather group ((r, p) ∷ apis) acc =
      (if r.group =~ group then add_provider r p acc else ok acc) >>= λ next. gather group apis next

  unfoldable pub build_groups :
      List (GroupVersionResource × P)
      → List String
      → List S
      → Result (List (ApiGroupInfo S) × List S)
  unfolding gather
  build_groups apis [] defaulting = ok ([], defaulting)
  build_groups apis (group ∷ groups) defaulting = do
    acc ← gather group apis (record { storages = []; defaulting = defaulting })
    rest ← build_groups apis groups acc.defaulting
    ok (record { group = group; storages = acc.storages } ∷ rest.0, rest.1)

-- `buildAPIGroupInfos`. `list_of` is `groups.List()` for the names that were inserted.
abbrev pub group_names : {P : Type 0} → List (GroupVersionResource × P) → List String
group_names [] = []
group_names ((r, p) ∷ apis) = r.group ∷ group_names apis

unfoldable pub build_api_group_infos :
    {P S : Type 0}
    → (P → Result S)
    → (S → Bool)
    → (List String → List String)
    → List (GroupVersionResource × P)
    → Result (List (ApiGroupInfo S) × List S)
unfolding build_groups
build_api_group_infos provide is_defaulter list_of apis =
    build_groups provide is_defaulter apis (list_of (group_names apis)) []
