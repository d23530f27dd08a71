-- ===== src/Storage/Provider.antt =====
-- `NewFilepathREST` of jsonfile_rest.go and jsonfile.go: how the REST storage of a resource is made.
pub mod Fresh
use tilt_apiserver.Base.{String, Bool, List, [], ◌∷◌, Option, none, some, Result, ok, err, Error}
use tilt_apiserver.Go.Paths
use tilt_apiserver.Storage.Objects.{Machinery}
use tilt_apiserver.Storage.FileSystem.{FileSystem}
use tilt_apiserver.Storage.Rest.{FilepathRest}
use tilt_apiserver.Builder.Register.{GroupVersionResource, GroupResource, group_resource}

-- What a provider of storage does: it panics, it returns nil and no error, a storage, or an error.
pub data Provided (S : Type 0) : Type 0 where
  panicked nothing : Provided S
  made : S → Provided S
  failed : Error → Provided S

-- What the storage is told of a resource: its name, its strategy's scope, and the error of
-- `getListPrt` on its list objects, if any.
pub record FileResource : Type 0 where
  pub gvr : GroupVersionResource
  pub namespace_scoped : Bool
  pub list_err : Option Error

-- The REST storage with its watch set and its strategy, which `filepathREST` only refers to.
pub record FileStorage (W T : Type 0) : Type 0 where
  pub rest : FilepathRest
  pub watch_set : W
  pub strategy : T

module _ (m : Machinery) (fs : FileSystem m) {W T : Type 0} where
  unfoldable pub new_filepath_rest :
      FileResource → String → W → T → fs.State → Provided (FileStorage W T) × fs.State
  new_filepath_rest obj rootpath watch_set strategy s =
      let gr = group_resource obj.gvr in
      let obj_root = Paths.join (rootpath ∷ gr.group ∷ gr.resource ∷ []) in
      let (r, s') = fs.ensure_dir obj_root s in
      elim r [
        | err e ↦ (panicked, s')
        | ok u ↦ (
          made (record {
            rest = record {
              obj_root_path = obj_root;
              namespace_scoped = obj.namespace_scoped;
              list_err = obj.list_err;
            };
            watch_set = watch_set;
            strategy = strategy;
          }),
          s',
        )
      ]

  -- The provider of `NewJSONFilepathStorageProvider`, called with a getter of REST options, which
  -- gives a codec or an error.
  unfoldable pub json_provider :
      FileResource
      → String
      → W
      → T
      → (GroupResource → Option Error)
      → fs.State
      → Provided (FileStorage W T) × fs.State
  unfolding new_filepath_rest
  json_provider obj root_path watch_set strategy getter s = elim (getter (group_resource obj.gvr)) [
    | some e ↦ (failed e, s)
    | none ↦ new_filepath_rest obj root_path watch_set strategy s
  ]
