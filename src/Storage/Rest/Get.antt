-- ===== src/Storage/Rest/Get.antt =====
-- `Get` against the specification.
use mathlib.Core.Path.{subst}
use tilt_apiserver.Base.{
  sym, ◌≡◌, String, none, Result, ok, err, not_found, is_not_exist, if◌then◌else◌, arith, ◌>>=◌,
}
use tilt_apiserver.Storage.Objects.{Machinery}
use tilt_apiserver.Storage.Registry.{Registry}
use tilt_apiserver.Storage.FileSystem.{FileSystem}
use tilt_apiserver.Storage.Spec.{found}
use tilt_apiserver.Storage.MemoryFs.{decode_buffer}
use tilt_apiserver.Storage.Contract.{Implements}
use tilt_apiserver.Storage.Rest.{FilepathRest, Context, object_file_name, get}

-- What a read of a file returns to the client: an error of the codec that `os.IsNotExist` accepts
-- would be reported as NotFound too.
abbrev pub as_reply : (m : Machinery) → String → Result m.Object → Result m.Object
as_reply m name (ok obj) = ok obj
as_reply m name (err e) = if is_not_exist e then err (not_found name) else err e

module _ (m : Machinery) (g : Registry m) (fs : FileSystem m) (f : FilepathRest)
    (c : Implements m fs) (ctx : Context) (name : String) (s : fs.State)
    (ready : c.IsReady (object_file_name f ctx name) s) where
  pub get_result :
      (get m g fs f ctx name s).0
      ≡ as_reply m name
          (found ((c.view s).files (c.location (object_file_name f ctx name))) >>= decode_buffer m)
  unfolding get
  get_result = ground (arith, c.read_result (object_file_name f ctx name) s ready)

  -- A name with no file is NotFound.
  pub get_absent :
      (c.view s).files (c.location (object_file_name f ctx name)) ≡ none
      → (get m g fs f ctx name s).0 ≡ err (not_found name)
  get_absent h = ground (arith, get_result)

  pub get_view : c.view (get m g fs f ctx name s).1 ≡ c.view s
  unfolding get
  get_view = ground (arith, c.read_view (object_file_name f ctx name) s ready)

  get_state : (get m g fs f ctx name s).1 ≡ (fs.read (object_file_name f ctx name) s).1
  unfolding get
  get_state = ground arith

  pub get-IsReady : c.IsReady (object_file_name f ctx name) (get m g fs f ctx name s).1
  get-IsReady =
      subst (c.IsReady (object_file_name f ctx name)) (sym get_state)
        (c.read_ready (object_file_name f ctx name) s ready)
