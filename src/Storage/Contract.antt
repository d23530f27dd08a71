-- ===== src/Storage/Contract.antt =====
-- What the REST storage relies on in a file system: seen through its files by location, it is the
-- store of the specification. `MemoryFS` fills the interface.
pub mod Memory
use tilt_apiserver.Base.{ℕ, ◌≡◌, Bool, String, List, Option, none, some, Result, ok, err, ◌>>=◌}
use tilt_apiserver.Storage.Objects.{Machinery}
use tilt_apiserver.Storage.FileSystem.{FileSystem}
use tilt_apiserver.Storage.Spec.{Store, found, spec_exists, spec_remove, spec_write}
use tilt_apiserver.Storage.MemoryFs.{decode_buffer}

pub record Implements (m : Machinery) (fs : FileSystem m) : Type 1 where
  pub view : fs.State → Store
  pub location : String → List String
  -- A file can be put at the path.
  pub IsReady : String → fs.State → Type 0
  pub read_result :
      (p : String) (s : fs.State)
      → IsReady p s
      → (fs.read p s).0 ≡ (found ((view s).files (location p)) >>= decode_buffer m)
  pub read_view : (p : String) (s : fs.State) → IsReady p s → view (fs.read p s).1 ≡ view s
  pub read_ready : (p : String) (s : fs.State) → IsReady p s → IsReady p (fs.read p s).1
  pub exists_result :
      (p : String) (s : fs.State)
      → IsReady p s
      → (fs.exists p s).0 ≡ spec_exists (location p) (view s)
  pub exists_view : (p : String) (s : fs.State) → IsReady p s → view (fs.exists p s).1 ≡ view s
  pub exists_ready : (p : String) (s : fs.State) → IsReady p s → IsReady p (fs.exists p s).1
  pub write_result :
      (p : String) (obj : m.Object) (v : ℕ) (s : fs.State)
      → IsReady p s
      → (fs.write p obj v s).0 ≡ (spec_write m (location p) obj v (view s)).0
  pub write_view :
      (p : String) (obj : m.Object) (v : ℕ) (s : fs.State)
      → IsReady p s
      → view (fs.write p obj v s).1 ≡ (spec_write m (location p) obj v (view s)).1
  pub write_ready :
      (p : String) (obj : m.Object) (v : ℕ) (s : fs.State)
      → IsReady p s
      → IsReady p (fs.write p obj v s).1
  pub remove_result :
      (p : String) (s : fs.State)
      → IsReady p s
      → (fs.remove p s).0 ≡ (spec_remove (location p) (view s)).0
  pub remove_view :
      (p : String) (s : fs.State)
      → IsReady p s
      → view (fs.remove p s).1 ≡ (spec_remove (location p) (view s)).1
  pub remove_ready : (p : String) (s : fs.State) → IsReady p s → IsReady p (fs.remove p s).1
