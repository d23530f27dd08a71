-- ===== src/Server/ApiServer/Installed.antt =====
-- About the groups that a new server has, and about the network of a provider of connections.
use tilt_apiserver.Base.{
  ◌≡◌, ◌∙◌, ap, true, String, Bool, List, [], ◌∷◌, ◌++◌, some, Result, ok, Result-cases, inl, inr,
  arith,
}
use mathlib.Core.List.{append_assoc, append-nil}
use tilt_apiserver.Builder.Register.{GroupVersionResource, get_api}
use tilt_apiserver.Server.ApiGroups.{ApiGroupInfo, served, build_api_group_infos}
use tilt_apiserver.Builder.Register.Status.{OneEach}
use tilt_apiserver.Server.ApiGroups.Served.{has, storages_of, build_api_group_infos-served}
use tilt_apiserver.Server.ApiServer.{
  GenericServer, CompletedConfig, install_api_groups, new_tilt_server,
}

-- What is relied on: a new server has no groups, and an installation adds its group at the end.
pub record Installs {C S : Type 0} (gs : GenericServer C S) : Type 0 where
  pub groups_of : gs.Server → List (ApiGroupInfo S)
  pub groups_of-new :
      (name : String) (c : gs.Completed) (server : gs.Server)
      → gs.new name c ≡ ok server
      → groups_of server ≡ []
  pub groups_of-install :
      (info : ApiGroupInfo S) (server server' : gs.Server)
      → gs.install_api_group info server ≡ ok server'
      → groups_of server' ≡ groups_of server ++ info ∷ []

module _ {C S : Type 0} (gs : GenericServer C S) (i : Installs gs) where
  install-groups_of :
      (infos : List (ApiGroupInfo S)) (server server' : gs.Server)
      → install_api_groups gs infos server ≡ ok server'
      → i.groups_of server' ≡ i.groups_of server ++ infos
  unfolding install_api_groups
  install-groups_of [] server server' h = ground (arith, h, append-nil (i.groups_of server))
  install-groups_of (info ∷ infos) server server' h =
      elim (Result-cases (gs.install_api_group info server)) [
        | inr (e, p) ↦ absurd (ground (arith, h, p))
        | inl (next, p) ↦
            let rest = install-groups_of infos next server' (ground (arith, h, p)) in
            rest
            ∙ ap (λ l. l ++ infos) (i.groups_of-install info server next p)
            ∙ append_assoc (i.groups_of server) (info ∷ []) infos
      ]

  module _ {P : Type 0} (provide : P → Result S) (is_defaulter : S → Bool)
      (list_of : List String → List String)
      (complete : (names : List String) (name : String)
        → has name names ≡ true
        → has name (list_of names) ≡ true) where
    -- A server that `New` returns serves every resource that was registered: where the map of the
    -- providers has each key once, the list of a set of names has every name, and the generic server
    -- has the groups that were installed, the provider of each resource gave a storage, and the
    -- server has that storage under the group, the version and the name of the resource.
    pub new_tilt_server-serves :
        (c : CompletedConfig gs P) (server : gs.Server) (r : GroupVersionResource) (p : P)
        → OneEach c.apis
        → get_api r c.apis ≡ some p
        → new_tilt_server gs provide is_defaulter list_of c ≡ ok server
        → (storage : S) × (provide p ≡ ok storage)
          × (served r (storages_of r.group (i.groups_of server)) ≡ some storage)
    unfolding new_tilt_server
    new_tilt_server-serves c server r p d n h =
        elim (Result-cases (gs.new "tilt-apiserver" c.generic_config)) [
          | inr (e, q) ↦ absurd (ground (arith, h, q))
          | inl (fresh, q) ↦
              elim (Result-cases (build_api_group_infos provide is_defaulter list_of c.apis)) [
                | inr (e, t) ↦ absurd (ground (arith, h, q, t))
                | inl ((infos, defaulting), t) ↦
                    let (st, given, there) =
                      build_api_group_infos-served provide is_defaulter list_of complete r p c.apis
                        infos defaulting d n t in
                    let groups =
                      install-groups_of infos fresh server (ground (arith, h, q, t))
                      ∙ ap (λ l. l ++ infos)
                          (i.groups_of-new "tilt-apiserver" c.generic_config fresh q) in
                    (st, given, rw groups there)
              ]
        ]
