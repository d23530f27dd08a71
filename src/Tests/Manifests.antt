-- ===== src/Tests/Manifests.antt =====
-- The copies of manifests, and the server that the program makes for them.
use tilt_apiserver.Base.{ℕ, ◌≡◌, ◌≢◌, true, false, List, [], ◌∷◌, some, ok, Result, refl}
use tilt_apiserver.Builder.DeepCopy.{
  Method, deep_copy_into_method_name, check_signature, call_method,
}
use tilt_apiserver.Builder.DeepCopy as DeepCopy
use tilt_apiserver.Builder.DeepCopy.Typed.{KeepsTypes, deep_copy-typed}
use tilt_apiserver.Builder.Manifest.{
  Manifest, ManifestList, Heap, Zeros, load, store, deep_copy_list, deep_copy_into,
  get_group_version_resource,
}
use tilt_apiserver.Builder.Manifest.Copies.{is_allocated, deep_copy_list-apart}
use tilt_apiserver.Builder.Strategy.Status.{manifest_reflect}
use tilt_apiserver.Builder.Register.Status.{OneEach}
use tilt_apiserver.Builder.Register.{
  new_server_builder, with_resource_storage, with_resource_and_handler, with_subresources,
  with_generic_sub_resources, with_sub_resource_and_handler, for_group_version_resource,
  with_group_versions, with_group_version, set_api, get_api, get_storage,
}
use tilt_apiserver.Server.ApiGroups.{
  ApiGroupInfo, served, lookup, put, add_storage, add_provider, gather, build_groups,
  build_api_group_infos,
}
use tilt_apiserver.Server.ApiServer.{new_tilt_server, install_api_groups}
use tilt_apiserver.Server.Registered.{serve_builder, registered-serves}
use tilt_apiserver.Server.Main.{manifest_resource, manifests, manifests_status}
use tilt_apiserver.Tests.Registration.{manifest}
use tilt_apiserver.Tests.Server.{each_once, each_once-has}
use tilt_apiserver.Tests.Run.{groups, installs}

abbrev zeros : Zeros Unit Unit Unit
zeros = record { type_meta = tt; object_meta = tt; list_meta = tt }

abbrev one_list : ManifestList Unit Unit
one_list = record { type_meta = tt; list_meta = tt; items = some 0 }

abbrev one_array : Heap Unit Unit
one_array = (manifest "wish" "fact" ∷ []) ∷ []

there : is_allocated 0 one_array ≡ true
unfolding is_allocated
there = refl

deep_copy_list-apart_example :
    (b : ℕ) × ((deep_copy_list zeros (some one_list) one_array).0
      ≡ some (record one_list { items = some b }))
    × (0 ≢ b)
    × (load zeros b (deep_copy_list zeros (some one_list) one_array).1 ≡ load zeros 0 one_array)
    × ((c : ℕ)
        → is_allocated c one_array ≡ true
        → load zeros c (deep_copy_list zeros (some one_list) one_array).1 ≡ load zeros c one_array)
    × ((new : List (Manifest Unit Unit))
        → load zeros 0 (store zeros b new (deep_copy_list zeros (some one_list) one_array).1)
          ≡ load zeros 0 one_array)
    × ((new : List (Manifest Unit Unit))
        → load zeros b (store zeros 0 new (deep_copy_list zeros (some one_list) one_array).1)
          ≡ load zeros 0 one_array)
deep_copy_list-apart_example = deep_copy_list-apart zeros one_list 0 one_array refl there

manifests_keep_types : KeepsTypes (manifest_reflect Unit Unit)
unfolding KeepsTypes
manifests_keep_types = λ src dst name method h. refl

copy_run :
    DeepCopy.deep_copy (manifest_reflect Unit Unit) (manifest "new" "sent") (manifest "old" "kept")
    ≡ some (ok (manifest "new" "sent"))
unfolding DeepCopy.deep_copy check_signature call_method deep_copy_into
copy_run = refl

deep_copy-typed_example :
    (method : Method Unit (Manifest Unit Unit)) × (t : Unit {0}) × ((manifest_reflect Unit
          Unit).method_by_name
        (manifest "new" "sent")
        deep_copy_into_method_name
      ≡ some method)
    × (method.inputs ≡ t ∷ [])
    × (method.outputs ≡ 0)
    × ((manifest_reflect Unit Unit).assignable_to tt t ≡ true)
    × ((manifest_reflect Unit Unit).assignable_to t tt ≡ true)
    × ((manifest_reflect Unit Unit).type_of (manifest "new" "sent") ≡ tt)
deep_copy-typed_example =
    deep_copy-typed (manifest_reflect Unit Unit) (manifest "new" "sent") (manifest "old" "kept")
      (manifest "new" "sent") manifests_keep_types copy_run

abbrev manifest_group : ApiGroupInfo ℕ
manifest_group = record {
  group = "core.tilt.dev";
  storages = ("v1alpha1", ("manifests", 1) ∷ ("manifests/status", 2) ∷ []) ∷ [];
}

main_run :
    serve_builder groups ok
      (λ s. false)
      each_once
      tt
      (with_resource_storage (manifest_resource zeros) 1 2 new_server_builder)
    ≡ ok (manifest_group ∷ [])
unfolding manifest_resource get_group_version_resource new_server_builder with_resource_storage
    with_resource_and_handler with_subresources with_generic_sub_resources
    with_sub_resource_and_handler for_group_version_resource with_group_versions with_group_version
    set_api get_api get_storage new_tilt_server install_api_groups build_api_group_infos
    build_groups gather add_provider add_storage lookup put
main_run = refl

has_status : (manifest_resource {P = ℕ} zeros).has_status ≡ true
unfolding manifest_resource
has_status = refl

no_keys : OneEach (new_server_builder {P = ℕ}).apis
unfolding new_server_builder
no_keys = tt

registered-serves_example :
    ((storage : ℕ) × (Result.ok 1 ≡ ok storage)
      × (served manifests manifest_group.storages ≡ some storage))
    × ((storage : ℕ) × (Result.ok 2 ≡ ok storage)
        × (served manifests_status manifest_group.storages ≡ some storage))
unfolding manifest_resource get_group_version_resource
registered-serves_example =
    registered-serves groups installs ok (λ s. false) each_once each_once-has tt
      (manifest_resource zeros) 1 2 new_server_builder (manifest_group ∷ []) no_keys has_status refl
      main_run
