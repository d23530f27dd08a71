-- ===== src/Server/ApiGroups/Served.antt =====
-- About the storage that serves a resource once the API groups are built.
use tilt_apiserver.Base.{
  ◌≡◌, ◌∙◌, refl, sym, Bool, true, false, ◌&&◌, ◌||◌, String, ◌=~◌, List, [], ◌∷◌, none, some,
  Result, ok, arith, eq_iff, Result-cases, Bool-cases, inl, inr, if◌then◌else◌,
}
use tilt_apiserver.Builder.Register.{GroupVersionResource, get_api, same_resource}
use tilt_apiserver.Builder.Register.Status.{OneEach, same-get_api}
use tilt_apiserver.Server.ApiGroups.{
  lookup, put, Storages, ApiGroupInfo, Gathered, resources_of, add_storage, served, add_provider,
  gather, build_groups, group_names, build_api_group_infos,
}

abbrev pub has : String → List String → Bool
has name [] = false
has name (n ∷ names) = n =~ name || has name names

-- The storages of the first group of a name.
abbrev pub storages_of : {S : Type 0} → String → List (ApiGroupInfo S) → Storages S
storages_of name [] = []
storages_of name (info ∷ infos) =
    if info.group =~ name then info.storages else storages_of name infos

module _ {P S : Type 0} (provide : P → Result S) (is_defaulter : S → Bool) where
  lookup-put :
      {A : Type 0} (key other : String) (a : A) (entries : List (String × A))
      → lookup other (put key a entries) ≡ (if key =~ other then some a else lookup other entries)
  unfolding lookup put
  lookup-put key other a [] = refl
  lookup-put key other a ((k, b) ∷ entries) =
      ground (arith, lookup-put key other a entries, eq_iff k key, eq_iff k other, eq_iff key other)

  served-add :
      (k r : GroupVersionResource) (storage : S) (apis : Storages S)
      → served r (add_storage k storage apis) ≡ (
          if k.version =~ r.version && k.resource =~ r.resource
          then some storage
          else served r apis)
  unfolding add_storage
  served-add k r storage apis = ground (
    arith,
    lookup-put k.version r.version (put k.resource storage (resources_of (lookup k.version apis)))
        apis,
    lookup-put k.resource r.resource storage (resources_of (lookup k.version apis)),
    eq_iff k.version r.version,
  )

  served_provider :
      (k r : GroupVersionResource) (p : P) (acc next : Gathered S)
      → add_provider provide is_defaulter k p acc ≡ ok next
      → (storage : S) × (provide p ≡ ok storage)
        × (served r next.storages ≡ (
            if k.version =~ r.version && k.resource =~ r.resource
            then some storage
            else served r acc.storages))
  unfolding add_provider
  served_provider k r p acc next h = elim (Result-cases (provide p)) [
    | inr (e, q) ↦ absurd (ground (arith, q))
    | inl (st, q) ↦ (st, q, ground (arith, q, h, served-add k r st acc.storages))
  ]

  gather-absent :
      (r : GroupVersionResource) (apis : List (GroupVersionResource × P)) (acc out : Gathered S)
      → get_api r apis ≡ none
      → gather provide is_defaulter r.group apis acc ≡ ok out
      → served r out.storages ≡ served r acc.storages
  unfolding gather get_api
  gather-absent r [] acc out n h = ground arith
  gather-absent r ((k, p) ∷ apis) acc out n h = elim (Bool-cases (k.group =~ r.group)) [
    | inr e ↦ gather-absent r apis acc out (ground (arith, e)) (ground (arith, e))
    | inl e ↦ elim (Result-cases (add_provider provide is_defaulter k p acc)) [
      | inr (x, q) ↦ absurd (ground (arith, e, q))
      | inl (next, q) ↦
          let (st, s, t) = served_provider k r p acc next q in
          ground (arith, e, q, t, n, gather-absent r apis next out)
    ]
  ]

  gather-served :
      (r : GroupVersionResource) (p : P) (apis : List (GroupVersionResource × P))
      (acc out : Gathered S)
      → OneEach apis
      → get_api r apis ≡ some p
      → gather provide is_defaulter r.group apis acc ≡ ok out
      → (storage : S) × (provide p ≡ ok storage) × (served r out.storages ≡ some storage)
  unfolding gather get_api
  gather-served r p [] acc out d n h = absurd (ground arith)
  gather-served r p ((k, q) ∷ apis) acc out d n h = elim (Bool-cases (same_resource k r)) [
    | inl e ↦ elim (Result-cases (add_provider provide is_defaulter k q acc)) [
      | inr (x, t) ↦ absurd (ground (arith, e, t))
      | inl (next, t) ↦
          let (st, s, u) = served_provider k r q acc next t in
          let gone = sym (same-get_api k r apis e) ∙ d.0 in
          (
            st,
            ground (arith, e, s, n),
            ground (arith, e, t, u, gone, gather-absent r apis next out gone),
          )
    ]
    | inr e ↦ elim (Bool-cases (k.group =~ r.group)) [
      | inr b ↦ gather-served r p apis acc out d.1 (ground (arith, e, n)) (ground (arith, b, h))
      | inl b ↦ elim (Result-cases (add_provider provide is_defaulter k q acc)) [
        | inr (x, t) ↦ absurd (ground (arith, b, t))
        | inl (next, t) ↦
            gather-served r p apis next out d.1 (ground (arith, e, n)) (ground (arith, b, h, t))
      ]
    ]
  ]

  build_groups-served :
      (r : GroupVersionResource) (p : P) (apis : List (GroupVersionResource × P))
      (names : List String) (before : List S) (infos : List (ApiGroupInfo S)) (after : List S)
      → OneEach apis
      → get_api r apis ≡ some p
      → has r.group names ≡ true
      → build_groups provide is_defaulter apis names before ≡ ok (infos, after)
      → (storage : S) × (provide p ≡ ok storage)
        × (served r (storages_of r.group infos) ≡ some storage)
  unfolding build_groups
  build_groups-served r p apis [] before infos after d n m h = absurd (ground arith)
  build_groups-served r p apis (name ∷ names) before infos after d n m h =
      elim (Result-cases
        (gather provide is_defaulter name apis (record { storages = []; defaulting = before }))) [
          | inr (x, t) ↦ absurd (ground (arith, t))
          | inl (acc, t) ↦
              elim (Result-cases (build_groups provide is_defaulter apis names acc.defaulting)) [
                | inr (x, u) ↦ absurd (ground (arith, t, u))
                | inl ((more, last), u) ↦
                    let e : infos ≡ record { group = name; storages = acc.storages } ∷ more =
                      ground (arith, t, u, h) in
                    elim (Bool-cases (name =~ r.group)) [
                      | inr b ↦
                          let (st, x, y) =
                            build_groups-served r p apis names acc.defaulting more last d n
                              (ground (arith, m, b)) u in
                          (st, x, ground (arith, e, b, y))
                      | inl b ↦
                          let same = (eq_iff name r.group).0 b in
                          let (st, x, y) = gather-served r p apis _ acc d n (rw same at t) in
                          (st, x, ground (arith, e, b, y))
                    ]
              ]
        ]

  group_names-has :
      (r : GroupVersionResource) (p : P) (apis : List (GroupVersionResource × P))
      → get_api r apis ≡ some p
      → has r.group (group_names apis) ≡ true
  unfolding get_api
  group_names-has r p [] n = absurd (ground arith)
  group_names-has r p ((k, q) ∷ apis) n = elim (Bool-cases (same_resource k r)) [
    | inl e ↦ ground (arith, e)
    | inr e ↦ ground (arith, e, n, group_names-has r p apis)
  ]

  -- Where the map has each key once, and the list of a set of names has every name of the set: if
  -- the groups are built, then the provider of every resource in the map gave a storage, and that
  -- storage serves the resource under its group, its version and its name.
  pub build_api_group_infos-served :
      (list_of : List String → List String)
      → ((names : List String) (name : String)
          → has name names ≡ true
          → has name (list_of names) ≡ true)
      → (r : GroupVersionResource) (p : P) (apis : List (GroupVersionResource × P))
        (infos : List (ApiGroupInfo S)) (defaulting : List S)
      → OneEach apis
      → get_api r apis ≡ some p
      → build_api_group_infos provide is_defaulter list_of apis ≡ ok (infos, defaulting)
      → (storage : S) × (provide p ≡ ok storage)
        × (served r (storages_of r.group infos) ≡ some storage)
  unfolding build_api_group_infos
  build_api_group_infos-served list_of complete r p apis infos defaulting d n h =
      build_groups-served r p apis (list_of (group_names apis)) [] infos defaulting d n
        (complete (group_names apis) r.group (group_names-has r p apis n)) h
