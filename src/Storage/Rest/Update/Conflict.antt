-- ===== src/Storage/Rest/Update/Conflict.antt =====
-- An update from an outdated object.
use tilt_apiserver.Base.{
  ℕ, suc, ◌≡◌, Bool, false, String, Option, none, some, Result, ok, err, arith, conflict, ◌==◌,
}
use tilt_apiserver.Storage.Objects.{Machinery}
use tilt_apiserver.Storage.Version.{get_resource_version}
use tilt_apiserver.Storage.Registry.{Registry}
use tilt_apiserver.Storage.FileSystem.{FileSystem}
use tilt_apiserver.Storage.Contract.{Implements}
use tilt_apiserver.Storage.Rest.{FilepathRest, Context, World, object_file_name, get}
use tilt_apiserver.Storage.Rest.Get.{get_view}
use tilt_apiserver.Storage.Rest.Write.{Others, Validate, ValidateUpdate, ensure_namespace}
use tilt_apiserver.Storage.Rest.TryUpdate.{Outcome, try_update, check_output}
use tilt_apiserver.Storage.Rest.Update.{
  returned, attempt_input, attempt_update, update_loop, guaranteed_update, update,
}

module _ (m : Machinery) (g : Registry m) (fs : FileSystem m) (f : FilepathRest)
    (c : Implements m fs) (ctx : Context) (name : String) (others : Others fs.State)
    (updated_object : Option m.Object → Result m.Object) (create_validation : Validate m)
    (update_validation : ValidateUpdate m) (force : Bool) (w : World m fs)
    (ready : c.IsReady (object_file_name f ctx name) w.files) (live : ctx.ctx_err 0 ≡ none)
    (cluster : f.namespace_scoped ≡ false) where
  abbrev got : fs.State
  got = (get m g fs f ctx name w.files).1

  abbrev try : Option m.Object → fs.State → Result (m.Object × Outcome) × fs.State
  try = try_update m g fs f ctx name updated_object create_validation update_validation force

  module _ (input output : m.Object) (stored sent : ℕ)
      (read : (get m g fs f ctx name w.files).0 ≡ ok input)
      (computed : updated_object (some input) ≡ ok output)
      (has_stored : get_resource_version m (some input) ≡ ok stored)
      (has_sent : get_resource_version m (some output) ≡ ok sent)
      (outdated : (stored == sent) ≡ false) where
    tried : try (some input) got ≡ (err (conflict name), got)
    unfolding try_update check_output ensure_namespace
    tried = ground (arith, computed, has_stored, has_sent, outdated, cluster)

    attempt :
        attempt_update m g fs f ctx name others try 0 w.files
        ≡ (returned (err (conflict name)), got)
    unfolding attempt_update attempt_input
    attempt = ground (arith, live, read, has_stored, tried)

    loop :
        (left : ℕ)
        → update_loop m g fs f ctx name others try (suc left) 0 w.files ≡ (err (conflict name), got)
    unfolding update_loop
    loop left = ground (arith, attempt)

    -- Where the object is not namespaced, the context is live, a file can be put at the object's path
    -- and Get returns an object: an update whose object has another version than the stored one is a
    -- conflict, also if it has none. No file changes, and nobody is notified.
    pub update_outdated :
        ((update m g fs f ctx name others updated_object create_validation update_validation force
            w).0
          ≡ err (conflict name))
        × (c.view
              (update m g fs f ctx name others updated_object create_validation update_validation
                force w).1.files
            ≡ c.view w.files)
        × ((update m g fs f ctx name others updated_object create_validation update_validation force
              w).1.notified
            ≡ w.notified)
    unfolding update guaranteed_update
    update_outdated =
        let l = loop 99 in
        (
          ground (arith, l),
          ground (arith, l, get_view m g fs f c ctx name w.files ready),
          ground (arith, l),
        )
