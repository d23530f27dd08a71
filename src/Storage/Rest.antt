-- ===== src/Storage/Rest.antt =====
-- `filepathREST` of pkg/storage/filepath/jsonfile_rest.go, over any file system: the names of its
-- files, and the operations that read.
pub mod Get
pub mod Create
pub mod Write
pub mod TryUpdate
pub mod Update
pub mod Remove
pub mod Watch
pub mod Listing
pub mod Found
pub mod Walked
pub mod Named
pub mod Gathered
pub mod Collection
pub mod Complete
use tilt_apiserver.Base.{
  ℕ, zero, suc, ◌+◌, Bool, true, false, String, ◌<>◌, List, [], ◌∷◌, ◌++◌, Option, none, some,
  Result, ok, err, Error, not_found, conflict, failed_walking, version_not_positive, is_not_exist,
  ◌>>=◌, if◌then◌else◌,
}
use tilt_apiserver.Go.Paths
use tilt_apiserver.Storage.Objects.{Machinery}
use tilt_apiserver.Storage.Version.{format_resource_version}
use tilt_apiserver.Storage.Registry.{Registry}
use tilt_apiserver.Storage.FileSystem.{FileSystem, Visitor}

-- The fields of `filepathREST` that the operations read. The errors keep the object's name only,
-- and `list_err` is the error of `getListPrt` on the list that `newListFunc` makes, if any.
pub record FilepathRest : Type 0 where
  pub obj_root_path : String
  pub namespace_scoped : Bool
  pub list_err : Option Error

-- A request's context: its namespace, and what `ctx.Err()` returns at each attempt of an update.
pub record Context : Type 0 where
  pub namespace : Option String
  pub ctx_err : ℕ → Option Error

pub data EventType : Type 0 where
  added modified deleted : EventType

-- `watch.Event`
pub record Event (m : Machinery) : Type 0 where
  pub kind : EventType
  pub object : m.Object

-- The file system, and the events that were handed to the watch set, in order.
pub record World (m : Machinery) (fs : FileSystem m) : Type 0 where
  pub files : fs.State
  pub notified : List (Event m)

-- A list object with its resource version.
pub record ObjectList (m : Machinery) : Type 0 where
  pub resource_version : String
  pub items : List m.Object

-- The namespace of `NamespaceFrom(ctx)`, which is empty when there is none.
abbrev pub namespace_or_empty : Context → String
namespace_or_empty ctx = elim ctx.namespace [ none ↦ "" | some ns ↦ ns ]

unfoldable pub object_file_name : FilepathRest → Context → String → String
object_file_name f ctx name =
    if f.namespace_scoped
    then Paths.join (f.obj_root_path ∷ namespace_or_empty ctx ∷ (name <> ".json") ∷ [])
    else Paths.join (f.obj_root_path ∷ (name <> ".json") ∷ [])

unfoldable pub object_dir_name : FilepathRest → Context → String
object_dir_name f ctx =
    if f.namespace_scoped
    then Paths.join (f.obj_root_path ∷ namespace_or_empty ctx ∷ [])
    else Paths.join (f.obj_root_path ∷ [])

module _ (m : Machinery) where
  -- `setResourceVersion` of a list object, which always has list metadata.
  unfoldable pub set_list_version : ℕ → List m.Object → Result (ObjectList m)
  set_list_version zero items = err version_not_positive
  set_list_version (suc rev) items =
      ok (record { resource_version = format_resource_version (suc rev); items = items })

-- What `newSelectionPredicate` reads of the list options.
pub record ListOptions {m : Machinery} (g : Registry m) : Type 0 where
  pub label_selector : Option g.LabelSelector
  pub field_selector : Option g.FieldSelector

module _ (m : Machinery) (g : Registry m) where
  pub record SelectionPredicate : Type 0 where
    pub label : g.LabelSelector
    pub field : g.FieldSelector

  unfoldable pub new_selection_predicate : Option (ListOptions g) → SelectionPredicate
  new_selection_predicate none = record { label = g.everything_label; field = g.everything_field }
  new_selection_predicate (some options) = record {
    label = elim options.label_selector [ none ↦ g.everything_label | some l ↦ l ];
    field = elim options.field_selector [ none ↦ g.everything_field | some l ↦ l ];
  }

  abbrev pub predicate_matches : SelectionPredicate → m.Object → Result Bool
  predicate_matches p obj = g.matches p.label p.field obj

module _ (m : Machinery) (g : Registry m) (fs : FileSystem m) (f : FilepathRest) where
  unfoldable pub notify_watchers : EventType → m.Object → World m fs → World m fs
  notify_watchers kind obj w = record w {
    notified = w.notified ++ record { kind = kind; object = obj } ∷ [];
  }

  unfoldable pub get : Context → String → fs.State → Result m.Object × fs.State
  get ctx name s =
      let (r, s') = fs.read (object_file_name f ctx name) s in
      elim r [
        | ok obj ↦ (ok obj, s')
        | err e ↦ (if is_not_exist e then err (not_found name) else err e, s')
      ]

  -- The visit function of `List`, with `appendItem`.
  unfoldable pub collect_matching : SelectionPredicate m g → Visitor m fs.State
  collect_matching p path obj items s = elim (predicate_matches m g p obj) [
    | err e ↦ (err e, s)
    | ok matched ↦ (ok (if matched then items ++ obj ∷ [] else items), s)
  ]

  -- The end that `List` and `DeleteCollection` share.
  unfoldable pub finish_list :
      String → Result (record { items : List m.Object; revision : ℕ }) → Result (ObjectList m)
  finish_list dirname (err e) = err (failed_walking dirname)
  finish_list dirname (ok r) = set_list_version m r.revision r.items

  unfoldable pub list :
      Context → Option (ListOptions g) → fs.State → Result (ObjectList m) × fs.State
  unfolding finish_list
  list ctx options s =
      let p = new_selection_predicate m g options in
      let dirname = object_dir_name f ctx in
      elim f.list_err [
        | some e ↦ (err e, s)
        | none ↦
            let (r, s') = fs.visit_dir dirname (collect_matching p) s in (finish_list dirname r, s')
      ]

  -- The visit function of `DeleteCollection`: the error of `Remove` is dropped.
  unfoldable pub remove_matching : SelectionPredicate m g → Visitor m fs.State
  remove_matching p path obj items s = elim (predicate_matches m g p obj) [
    | err e ↦ (err e, s)
    | ok false ↦ (ok items, s)
    | ok true ↦ let (r, s') = fs.remove path s in (ok (items ++ obj ∷ []), s')
  ]

  unfoldable pub delete_collection :
      Context → Option (ListOptions g) → World m fs → Result (ObjectList m) × World m fs
  unfolding finish_list
  delete_collection ctx options w =
      let p = new_selection_predicate m g options in
      let dirname = object_dir_name f ctx in
      elim f.list_err [
        | some e ↦ (err e, w)
        | none ↦
            let (r, s') = fs.visit_dir dirname (remove_matching p) w.files in
            (finish_list dirname r, record w { files = s' })
      ]
