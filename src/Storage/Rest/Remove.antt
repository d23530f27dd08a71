-- ===== src/Storage/Rest/Remove.antt =====
-- `Delete` of jsonfile_rest.go.
pub mod Gone
pub mod Kept
use tilt_apiserver.Base.{
  ℕ, Bool, true, false, String, none, some, Result, ok, err, not_found, is_not_exist, ltb,
  if◌then◌else◌,
}
use tilt_apiserver.Storage.Objects.{Machinery}
use tilt_apiserver.Storage.Version.{get_resource_version}
use tilt_apiserver.Storage.Registry.{Registry}
use tilt_apiserver.Storage.FileSystem.{FileSystem}
use tilt_apiserver.Storage.Rest.{
  FilepathRest, Context, World, modified, deleted, object_file_name, notify_watchers, get,
}
use tilt_apiserver.Storage.Rest.Write.{Validate, run_validation, Others, write_error}
use tilt_apiserver.Storage.Rest.TryUpdate.{is_nil}

-- The object, and whether it is gone at once.
pub record Deleted (m : Machinery) : Type 0 where
  pub object : m.Object
  pub at_once : Bool

module _ (m : Machinery) (g : Registry m) (fs : FileSystem m) (f : FilepathRest) where
  -- A deletion timestamp can only be moved earlier, and the grace period becomes zero.
  unfoldable pub mark_deleted : ℕ → m.Object → m.Object
  mark_deleted now obj =
      let moved : m.Object = elim (g.get_deletion_timestamp obj) [
        | none ↦ g.set_deletion_timestamp obj now
        | some t ↦ if ltb now t then g.set_deletion_timestamp obj now else obj
      ] in
      g.set_deletion_grace_period_seconds moved 0

  -- An object with finalizers is marked, and stays until they are gone.
  unfoldable pub delete_later :
      Context
      → String
      → Others fs.State
      → ℕ
      → m.Object
      → World m fs
      → Result (Deleted m) × World m fs
  unfolding write_error mark_deleted
  delete_later ctx name others now old w =
      let marked = mark_deleted now old in
      elim (get_resource_version m (some marked)) [
        | err e ↦ (err e, w)
        | ok version ↦
            let (r, s) =
              fs.write (object_file_name f ctx name) marked version
                (others.before_write 0 w.files) in
            elim r [
              | err e ↦ (err (write_error m g fs f name e), record w { files = s })
              | ok obj ↦ (
                ok (record { object = obj; at_once = false }),
                notify_watchers m g fs f modified obj (record w { files = s }),
              )
            ]
      ]

  unfoldable pub delete_now :
      Context → String → Others fs.State → m.Object → World m fs → Result (Deleted m) × World m fs
  delete_now ctx name others old w =
      let (r, s) = fs.remove (object_file_name f ctx name) (others.before_remove w.files) in
      elim r [
        | err e ↦ (err (if is_not_exist e then not_found name else e), record w { files = s })
        | ok u ↦ (
          ok (record { object = old; at_once = true }),
          notify_watchers m g fs f deleted old (record w { files = s }),
        )
      ]

  unfoldable pub delete :
      Context
      → String
      → Others fs.State
      → ℕ
      → Validate m
      → World m fs
      → Result (Deleted m) × World m fs
  unfolding delete_later delete_now
  delete ctx name others now delete_validation w =
      let (r, s) = get m g fs f ctx name w.files in
      elim r [
        | err e ↦ (err e, record w { files = s })
        | ok old ↦ elim (run_validation delete_validation (some old)) [
          | some e ↦ (err e, record w { files = s })
          | none ↦ elim (g.accessor old) [
            | some e ↦ (err e, record w { files = s })
            | none ↦
                if is_nil m g fs f (g.get_finalizers old)
                then delete_now ctx name others old (record w { files = s })
                else delete_later ctx name others now old (record w { files = s })
          ]
        ]
      ]
