-- ===== src/Builder/Shared.antt =====
-- `WithResourceFileStorage` and `WithResourceMemoryStorage` of pkg/server/builder/builder_resource.go:
-- the file systems and the watch sets that they make, and the providers that refer to them.
use tilt_apiserver.Base.{
  ℕ, ◌+◌, ◌≤◌, ◌<◌, ◌≡◌, ◌⊎◌, ◌∙◌, ap, refl, true, false, Bool, String, Option, none, some,
  Option-cases, inl, inr, arith,
}
use tilt_apiserver.Builder.Register.{
  GroupVersionResource, Server, ResourceObject, get_api, sub_resource, with_resource_storage,
}
use tilt_apiserver.Builder.Register.Lookup.{with_resource_storage-get_api}
use tilt_apiserver.Builder.Register.Status.{has_no, with_resource_storage-get_status}

-- What `NewJSONFilepathStorageProvider` is called with: the resource, the path, and the addresses of
-- a file system and of a watch set. The strategy is the resource's own, or that of its status.
pub record FileProvider : Type 0 where
  pub gvr : GroupVersionResource
  pub path : String
  pub file_system : ℕ
  pub watch_set : ℕ
  pub is_status_strategy : Bool

-- A provider of storage: of files, the `statusProvider` of one of files, or another one.
pub data StorageProvider : Type 0 where
  json status : FileProvider → StorageProvider
  generic : ℕ → StorageProvider

-- The builder, with the address of its `memoryFS`, if it has one, and the last address that was
-- given to a file system or a watch set.
pub record Stores : Type 0 where
  pub server : Server StorageProvider
  pub memory_fs : Option ℕ
  pub allocated : ℕ

-- `NewRealFS()`, `NewMemoryFS()` or `NewWatchSet()`: a new address.
unfoldable pub allocate : Stores → ℕ × Stores
allocate a = (a.allocated + 1, record a { allocated = a.allocated + 1 })

-- `a.memoryFS`, which is made if it is nil.
unfoldable pub ensure_memory_fs : Stores → ℕ × Stores
unfolding allocate
ensure_memory_fs a = elim a.memory_fs [
  | some fs ↦ (fs, a)
  | none ↦ let (fs, a') = allocate a in (fs, record a' { memory_fs = some fs })
]

-- What both do with their file system: a new watch set, the provider, and that of the status.
unfoldable pub with_storage_on : ResourceObject StorageProvider → String → ℕ → Stores → Stores
unfolding allocate
with_storage_on obj path fs a =
    let (ws, a') = allocate a in
    let sp : FileProvider = record {
      gvr = obj.gvr;
      path = path;
      file_system = fs;
      watch_set = ws;
      is_status_strategy = false;
    } in
    record a' {
      server =
          with_resource_storage obj (json sp) (status (record sp { is_status_strategy = true }))
            a'.server;
    }

unfoldable pub with_resource_file_storage :
    ResourceObject StorageProvider → String → Stores → Stores
unfolding allocate with_storage_on
with_resource_file_storage obj path a = let (fs, a') = allocate a in with_storage_on obj path fs a'

unfoldable pub with_resource_memory_storage :
    ResourceObject StorageProvider → String → Stores → Stores
unfolding ensure_memory_fs with_storage_on
with_resource_memory_storage obj path a =
    let (fs, a') = ensure_memory_fs a in with_storage_on obj path fs a'

-- What a resource and its status are served by.
pub record IsShared (obj : ResourceObject StorageProvider) (path : String) (before after : Stores)
    (own : FileProvider) : Type 0 where
  pub of_status : FileProvider
  pub resource_api : get_api obj.gvr after.server.apis ≡ some (json own)
  pub status_api :
      get_api (sub_resource obj.gvr "status") after.server.apis ≡ some (status of_status)
  pub own_path : own.path ≡ path
  pub same_path : of_status.path ≡ own.path
  pub same_files : of_status.file_system ≡ own.file_system
  pub same_watches : of_status.watch_set ≡ own.watch_set
  pub new_watches : before.allocated < own.watch_set
  pub watches_allocated : own.watch_set ≤ after.allocated

module _ (obj : ResourceObject StorageProvider) (path : String) (has_status : obj.has_status ≡ true)
    (none_other : has_no "status" obj.generic_sub_resources ≡ true) where
  IsShared-at :
      (a b : Stores) (sp status_sp : FileProvider)
      → (b.server ≡ with_resource_storage obj (json sp) (status status_sp) a.server)
      → (sp.path ≡ path)
      → (status_sp ≡ record sp { is_status_strategy = true })
      → a.allocated < sp.watch_set
      → sp.watch_set ≤ b.allocated
      → IsShared obj path a b sp
  IsShared-at a b sp status_sp made at_path same new old = record {
    of_status = status_sp;
    resource_api =
        ap (λ z. get_api obj.gvr z.apis) made
        ∙ with_resource_storage-get_api obj (json sp) (status status_sp) a.server;
    status_api =
        ap (λ z. get_api (sub_resource obj.gvr "status") z.apis) made
        ∙ with_resource_storage-get_status obj (json sp) (status status_sp) a.server has_status
            none_other;
    own_path = at_path;
    same_path = ap (λ z. z.path) same;
    same_files = ap (λ z. z.file_system) same;
    same_watches = ap (λ z. z.watch_set) same;
    new_watches = new;
    watches_allocated = old;
  }

  -- The provider of a resource for the files and the watch set of these addresses.
  abbrev provider_at : ℕ → ℕ → FileProvider
  provider_at fs ws = record {
    gvr = obj.gvr;
    path = path;
    file_system = fs;
    watch_set = ws;
    is_status_strategy = false;
  }

  file-IsShared :
      (a : Stores)
      → (sp : FileProvider) × IsShared obj path a (with_resource_file_storage obj path a) sp
        × ((with_resource_file_storage obj path a).memory_fs ≡ a.memory_fs)
        × (a.allocated < sp.file_system)
  unfolding with_resource_file_storage with_storage_on allocate
  file-IsShared a = (
    provider_at (a.allocated + 1) (a.allocated + 1 + 1),
    IsShared-at a (with_resource_file_storage obj path a)
        (provider_at (a.allocated + 1) (a.allocated + 1 + 1)) _ refl refl refl (omega arith)
        (omega arith),
    refl,
    omega arith,
  )

  memory-IsShared :
      (a : Stores)
      → (sp : FileProvider) × IsShared obj path a (with_resource_memory_storage obj path a) sp
        × ((with_resource_memory_storage obj path a).memory_fs ≡ some sp.file_system)
        × (((a.memory_fs ≡ none) × (a.allocated < sp.file_system))
            ⊎ (a.memory_fs ≡ some sp.file_system))
  unfolding with_resource_memory_storage ensure_memory_fs with_storage_on allocate
  memory-IsShared a = elim (Option-cases a.memory_fs) [
    | inr (fs, e) ↦ (
      provider_at fs (a.allocated + 1),
      IsShared-at a (with_resource_memory_storage obj path a) (provider_at fs (a.allocated + 1)) _
          (rw e refl) refl refl (omega arith) (rw e (omega arith)),
      rw e refl,
      inr e,
    )
    | inl e ↦ (
      provider_at (a.allocated + 1) (a.allocated + 1 + 1),
      IsShared-at a (with_resource_memory_storage obj path a)
          (provider_at (a.allocated + 1) (a.allocated + 1 + 1)) _ (rw e refl) refl refl
          (omega arith) (rw e (omega arith)),
      rw e refl,
      inl (e, omega arith),
    )
  ]

  -- The path and the files of the resource's storage, and its watch set, are those of its status.
  -- With memory storage, the files are those of the builder, which are made if it has none; with
  -- file storage, they are new, and the builder's are left alone. The watch set is new in both. This
  -- holds for a resource with a status, of which no generic subresource has the name of the status.
  pub storage-IsShared :
      (a : Stores)
      → ((sp : FileProvider) × IsShared obj path a (with_resource_memory_storage obj path a) sp
          × ((with_resource_memory_storage obj path a).memory_fs ≡ some sp.file_system)
          × (((a.memory_fs ≡ none) × (a.allocated < sp.file_system))
              ⊎ (a.memory_fs ≡ some sp.file_system)))
        × ((sp : FileProvider) × IsShared obj path a (with_resource_file_storage obj path a) sp
            × ((with_resource_file_storage obj path a).memory_fs ≡ a.memory_fs)
            × (a.allocated < sp.file_system))
  storage-IsShared a = (memory-IsShared a, file-IsShared a)
