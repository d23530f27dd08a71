-- ===== src/Tests/Registration.antt =====
-- The registration of a resource with a status.
use tilt_apiserver.Base.{◌≡◌, ◌⊎◌, ◌<◌, none, refl, ℕ, true, String, [], ◌∷◌, some}
use tilt_apiserver.Builder.Strategy.{prepare_for_update, prepare_status_update}
use tilt_apiserver.Builder.Manifest.{Manifest}
use tilt_apiserver.Builder.Strategy.Status.{manifest_methods, updates_split}
use tilt_apiserver.Builder.Register.{ResourceObject, new_server_builder, with_resource_storage}
use tilt_apiserver.Builder.Shared.{
  StorageProvider, FileProvider, Stores, IsShared, with_resource_memory_storage,
  with_resource_file_storage, storage-IsShared,
}
use tilt_apiserver.Builder.Register.Versions.{
  IsConsistent, with_resource_storage-IsConsistent, new_server_builder-IsConsistent,
}

-- A resource with a status and one generic subresource. Its providers are numbers.
abbrev pub manifests : ResourceObject ℕ
manifests = record {
  gvr = record { group = "core.tilt.dev"; version = "v1alpha1"; resource = "manifests" };
  has_status = true;
  generic_sub_resources = ("log", λ p. p) ∷ [];
}

with_resource_storage-IsConsistent_example :
    IsConsistent (with_resource_storage manifests 1 2 new_server_builder)
with_resource_storage-IsConsistent_example =
    with_resource_storage-IsConsistent manifests 1 2 new_server_builder
      new_server_builder-IsConsistent

-- The same, for a builder with one memory file system.
abbrev stored_manifests : ResourceObject StorageProvider
stored_manifests = record {
  gvr = manifests.gvr;
  has_status = true;
  generic_sub_resources = ("log", λ p. p) ∷ [];
}

abbrev one_store : Stores
one_store = record { server = new_server_builder; memory_fs = some 1; allocated = 1 }

storage-IsShared_example :
    let a = with_resource_memory_storage stored_manifests "/data" one_store in
    let b = with_resource_file_storage stored_manifests "/data" one_store in
    ((sp : FileProvider) × IsShared stored_manifests "/data" one_store a sp
      × (a.memory_fs ≡ some sp.file_system)
      × (((one_store.memory_fs ≡ none) × (one_store.allocated < sp.file_system))
          ⊎ (one_store.memory_fs ≡ some sp.file_system)))
    × ((sp : FileProvider) × IsShared stored_manifests "/data" one_store b sp
        × (b.memory_fs ≡ one_store.memory_fs)
        × (one_store.allocated < sp.file_system))
storage-IsShared_example = storage-IsShared stored_manifests "/data" refl refl one_store

abbrev pub manifest : String → String → Manifest Unit Unit
manifest wish fact = record {
  type_meta = tt;
  object_meta = tt;
  spec = record { message = wish };
  status = record { message = fact };
}

updates_split_example :
    (prepare_for_update
        (manifest_methods Unit Unit)
        (manifest "new" "sent")
        (manifest "old" "stored")
      ≡ some (manifest "new" "stored"))
    × (prepare_status_update
          (manifest_methods Unit Unit)
          (manifest "new" "sent")
          (manifest "old" "stored")
        ≡ some (manifest "old" "sent", manifest "old" "sent"))
updates_split_example = updates_split (manifest "new" "sent") (manifest "old" "stored")
