-- ===== src/Storage/Contract/Memory.antt =====
-- `MemoryFS` fills the interface.
use tilt_apiserver.Base.{ℕ, ◌≡◌, String, ◌>>=◌, ap, arith}
use tilt_apiserver.Go.Paths
use tilt_apiserver.Storage.Objects.{Machinery}
use tilt_apiserver.Storage.Tree.{VersionedData}
use tilt_apiserver.Storage.Spec.{found}
use tilt_apiserver.Storage.MemoryFs.{
  MemoryFs, find_dir, increment_rev, read_buffer, write_buffer, store_buffer, remove, exists, write,
  read, decode_buffer, memory_fs,
}
use tilt_apiserver.Storage.MemoryFs.Files.{
  location, view, IsReady, find_dir-IsReady, put-IsReady, delete-IsReady, increment-IsReady,
}
use tilt_apiserver.Storage.MemoryFs.Refines.{
  found_at, read_buffer_refines, exists_refines, remove_refines, write_refines,
}
use tilt_apiserver.Storage.Contract.{Implements}

module _ (m : Machinery) (p : String) (fs : MemoryFs) (ready : IsReady p fs) where
  pub read-result : (read m p fs).0 ≡ (found ((view fs).files (location p)) >>= decode_buffer m)
  unfolding read
  read-result = ap (λ r. r >>= decode_buffer m) (found_at p fs ready)

  pub read-view : view (read m p fs).1 ≡ view fs
  unfolding read
  read-view = ap (λ r. r.1) (read_buffer_refines p fs ready)

  read_buffer-IsReady : IsReady p (read_buffer p fs).1
  unfolding read_buffer
  read_buffer-IsReady = ground (arith, find_dir-IsReady p fs ready)

  pub read-IsReady : IsReady p (read m p fs).1
  unfolding read
  read-IsReady = read_buffer-IsReady

  pub exists-IsReady : IsReady p (exists p fs).1
  unfolding exists
  exists-IsReady = ground (arith, find_dir-IsReady p fs ready)

  pub remove-IsReady : IsReady p (remove p fs).1
  unfolding remove
  remove-IsReady = ground (arith, find_dir-IsReady p fs ready, delete-IsReady p fs ready)

module _ (m : Machinery) (p : String) (fs : MemoryFs) (ready : IsReady p fs) where
  store_buffer-IsReady : (obj : m.Object) (buf : String) → IsReady p (store_buffer m p obj buf fs).1
  unfolding store_buffer
  store_buffer-IsReady obj buf =
      let v : VersionedData = record {
        version = (increment_rev (find_dir (Paths.dir p) fs).1).rev;
        content = buf;
      } in
      ground (
        arith,
        find_dir-IsReady p fs ready,
        put-IsReady p fs ready v,
        increment-IsReady p (find_dir (Paths.dir p) fs).1,
      )

module _ (m : Machinery) (p : String) (fs : MemoryFs) (ready : IsReady p fs) where
  write_buffer-IsReady :
      (obj : m.Object) (buf : String) (v : ℕ) → IsReady p (write_buffer m p obj buf v fs).1
  unfolding write_buffer
  write_buffer-IsReady obj buf v = ground (
    arith,
    read_buffer-IsReady m p fs ready,
    store_buffer-IsReady m p (read_buffer p fs).1 (read_buffer-IsReady m p fs ready) obj buf,
  )

  pub write-IsReady : (obj : m.Object) (v : ℕ) → IsReady p (write m p obj v fs).1
  unfolding write
  write-IsReady obj v = grind (arith, write_buffer-IsReady)

abbrev pub memory_implements : (m : Machinery) → Implements m (memory_fs m)
memory_implements m = record {
  view = view;
  location = location;
  IsReady = IsReady;
  read_result = read-result m;
  read_view = read-view m;
  read_ready = read-IsReady m;
  exists_result = λ p s h. ap (λ r. r.0) (exists_refines p s h);
  exists_view = λ p s h. ap (λ r. r.1) (exists_refines p s h);
  exists_ready = exists-IsReady m;
  write_result = λ p o v s h. ap (λ r. r.0) (write_refines m p s h o v);
  write_view = λ p o v s h. ap (λ r. r.1) (write_refines m p s h o v);
  write_ready = λ p o v s h. write-IsReady m p s h o v;
  remove_result = λ p s h. ap (λ r. r.0) (remove_refines p s h);
  remove_view = λ p s h. ap (λ r. r.1) (remove_refines p s h);
  remove_ready = remove-IsReady m;
}
