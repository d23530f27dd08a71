-- ===== src/Server/Main.antt =====
-- cmd/apiserver/main.go: the builder of the program, up to the run of its command.
use tilt_apiserver.Base.{◌≡◌, true, String, [], some, ok, Result, Bool, List, refl}
use tilt_apiserver.Builder.Manifest.{Zeros, new_manifest, get_group_version_resource}
use tilt_apiserver.Builder.Register.{
  GroupVersionResource, Server, ResourceObject, new_server_builder, with_resource_storage,
}
use tilt_apiserver.Builder.Scheme.{SchemePackage}
use tilt_apiserver.Builder.Options.{ServerBuilder, with_open_api_definitions}
use tilt_apiserver.Server.Serving.{Serving}
use tilt_apiserver.Server.ApiGroups.{served}
use tilt_apiserver.Server.ApiGroups.Served.{has, storages_of}
use tilt_apiserver.Server.ApiServer.{GenericServer}
use tilt_apiserver.Server.ApiServer.Installed.{Installs}
use tilt_apiserver.Server.Registered.{serve_builder, registered-serves}

-- `&corev1alpha1.Manifest{}` as it is registered: it has a status, and no generic subresources.
unfoldable pub manifest_resource : {T O L : Type 0} {P : Type 0} → Zeros T O L → ResourceObject P
unfolding new_manifest get_group_version_resource
manifest_resource z = record {
  gvr = get_group_version_resource (new_manifest z);
  has_status = true;
  generic_sub_resources = [];
}

-- `NewServerBuilder().WithResourceMemoryStorage(...)`, with the providers that it makes.
unfoldable pub main_builder : {T O L : Type 0} {P : Type 0} → Zeros T O L → P → P → Server P
unfolding manifest_resource
main_builder z sp status_sp =
    with_resource_storage (manifest_resource z) sp status_sp new_server_builder

-- `WithOpenAPIDefinitions("tilt", "0.1.0", ...)` on the builder's other fields.
unfoldable pub main_definitions :
    (v : Serving) (k : SchemePackage) (D : Type 0) → D → ServerBuilder v k D → ServerBuilder v k D
main_definitions v k D definitions a = with_open_api_definitions v k D "tilt" "0.1.0" definitions a

abbrev pub manifests : GroupVersionResource
manifests = record { group = "core.tilt.dev"; version = "v1alpha1"; resource = "manifests" }

abbrev pub manifests_status : GroupVersionResource
manifests_status = record manifests { resource = "manifests/status" }

module _ {C S : Type 0} (gs : GenericServer C S) (i : Installs gs) {P : Type 0}
    (provide : P → Result S) (is_defaulter : S → Bool) (list_of : List String → List String)
    (complete : (names : List String) (name : String)
      → has name names ≡ true
      → has name (list_of names) ≡ true)
    (generic : gs.Completed) where
  -- Every server that is made of the program's builder serves the manifests and their status, by the
  -- storages of the two providers, under version v1alpha1 of core.tilt.dev: where the list of a set
  -- of names has every name, and the generic server has the groups that were installed.
  pub main-serves :
      {T O L : Type 0} (z : Zeros T O L) (sp status_sp : P) (server : gs.Server)
      → serve_builder gs provide is_defaulter list_of generic (main_builder z sp status_sp)
        ≡ ok server
      → ((storage : S) × (provide sp ≡ ok storage)
          × (served manifests (storages_of "core.tilt.dev" (i.groups_of server)) ≡ some storage))
        × ((storage : S) × (provide status_sp ≡ ok storage)
            × (served manifests_status (storages_of "core.tilt.dev" (i.groups_of server))
                ≡ some storage))
  unfolding main_builder manifest_resource get_group_version_resource new_server_builder
  main-serves z sp status_sp server h =
      registered-serves gs i provide is_defaulter list_of complete generic (manifest_resource z) sp
        status_sp new_server_builder server tt refl refl h
