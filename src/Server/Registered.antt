-- ===== src/Server/Registered.antt =====
-- About a server that is made of the map of a builder's providers, after a registration.
use tilt_apiserver.Base.{◌≡◌, true, Bool, String, List, some, Result, ok}
use tilt_apiserver.Builder.Register.{Server, ResourceObject, sub_resource, with_resource_storage}
use tilt_apiserver.Builder.Register.Lookup.{with_resource_storage-get_api}
use tilt_apiserver.Builder.Register.Status.{
  OneEach, has_no, with_resource_storage-OneEach, with_resource_storage-get_status,
}
use tilt_apiserver.Server.ApiGroups.{served}
use tilt_apiserver.Server.ApiGroups.Served.{has, storages_of}
use tilt_apiserver.Server.ApiServer.{GenericServer, CompletedConfig, new_tilt_server}
use tilt_apiserver.Server.ApiServer.Installed.{Installs, new_tilt_server-serves}

-- The server that `New` makes of a builder's providers.
abbrev pub serve_builder :
    {C S P : Type 0} (gs : GenericServer C S)
    → (P → Result S)
    → (S → Bool)
    → (List String → List String)
    → gs.Completed
    → Server P
    → Result gs.Server
serve_builder gs provide is_defaulter list_of generic a =
    new_tilt_server gs provide is_defaulter list_of
      (record { generic_config = generic; apis = a.apis })

module _ {C S : Type 0} (gs : GenericServer C S) (i : Installs gs) {P : Type 0}
    (provide : P → Result S) (is_defaulter : S → Bool) (list_of : List String → List String)
    (complete : (names : List String) (name : String)
      → has name names ≡ true
      → has name (list_of names) ≡ true)
    (generic : gs.Completed) where
  -- A server made of a builder whose last registration is that of a resource with a status serves
  -- both: where no generic subresource has the name of the status, the builder's map had each key
  -- once before, the list of a set of names has every name, and the generic server has the groups
  -- that were installed, the storage of the resource's provider is under the resource's name, and
  -- that of the status provider under the name of its status.
  pub registered-serves :
      (obj : ResourceObject P) (sp status_sp : P) (a : Server P) (server : gs.Server)
      → OneEach a.apis
      → obj.has_status ≡ true
      → has_no "status" obj.generic_sub_resources ≡ true
      → serve_builder gs provide is_defaulter list_of generic
          (with_resource_storage obj sp status_sp a)
        ≡ ok server
      → ((storage : S) × (provide sp ≡ ok storage)
          × (served obj.gvr (storages_of obj.gvr.group (i.groups_of server)) ≡ some storage))
        × ((storage : S) × (provide status_sp ≡ ok storage)
            × (served
                  (sub_resource obj.gvr "status")
                  (storages_of obj.gvr.group (i.groups_of server))
                ≡ some storage))
  registered-serves obj sp status_sp a server keys status none_other h =
      let b = with_resource_storage obj sp status_sp a in
      let c : CompletedConfig gs P = record { generic_config = generic; apis = b.apis } in
      let keys' = with_resource_storage-OneEach obj sp status_sp a keys in
      (
        new_tilt_server-serves gs i provide is_defaulter list_of complete c server obj.gvr sp keys'
            (with_resource_storage-get_api obj sp status_sp a) h,
        new_tilt_server-serves gs i provide is_defaulter list_of complete c server
            (sub_resource obj.gvr "status") status_sp keys'
            (with_resource_storage-get_status obj sp status_sp a status none_other) h,
      )
