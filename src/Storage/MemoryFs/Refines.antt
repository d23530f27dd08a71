-- ===== src/Storage/MemoryFs/Refines.antt =====
-- About each method of `MemoryFS` against the specification.
use tilt_apiserver.Base.{◌≡◌, refl, ℕ, String, Option, arith, ap, ◌∙◌}
use tilt_apiserver.Go.Paths
use tilt_apiserver.Storage.Objects.{Machinery}
use tilt_apiserver.Storage.Tree.{Node, is_free, get_entry}
use tilt_apiserver.Storage.Tree.Ensure.{as_file}
use tilt_apiserver.Storage.Spec.{
  found, spec_read, spec_exists, spec_remove, commit, spec_write_bytes, spec_write,
}
use tilt_apiserver.Storage.MemoryFs.{
  MemoryFs, find_dir, increment_rev, remove, exists, read_entry, read_buffer, store_buffer,
  write_buffer, encode_versionless, write,
}
use tilt_apiserver.Storage.MemoryFs.Files.{
  location, view, seen, IsReady, rev-view, view-increment_rev, view-find_dir, find_dir_ready,
  view-put, view-delete, find_dir-IsReady,
}

read_entry-found : (n : Option Node) → read_entry n ≡ found (as_file n)
unfolding read_entry
read_entry-found n = ground arith

rev_after : (p : String) (fs : MemoryFs) → (find_dir p fs).1.rev ≡ fs.rev
unfolding find_dir
rev_after p fs = refl

module _ (p : String) (fs : MemoryFs) (ready : IsReady p fs) where
  pub found_at : (read_buffer p fs).0 ≡ found ((view fs).files (location p))
  unfolding read_buffer
  found_at =
      let (d, e, f, g) = find_dir_ready p fs ready in
      ground (arith, e, f, read_entry-found (get_entry (Paths.base p) d))

  state_after_read : (read_buffer p fs).1 ≡ (find_dir (Paths.dir p) fs).1
  unfolding read_buffer
  state_after_read = let (d, e, f, g) = find_dir_ready p fs ready in ground (arith, e)

  -- At a path where a file can be put, `readBuffer` returns the file of the path, or that there is
  -- none, and changes no file.
  pub read_buffer_refines : seen (read_buffer p fs) ≡ (spec_read (location p) (view fs), view fs)
  unfolding spec_read
  read_buffer_refines = ground (arith, found_at, state_after_read, view-find_dir (Paths.dir p) fs)

  -- At a path where a file can be put, `Exists` says whether the store has its file, and changes no
  -- file.
  pub exists_refines : seen (exists p fs) ≡ (spec_exists (location p) (view fs), view fs)
  unfolding spec_exists exists is_free
  exists_refines =
      let (d, e, f, g) = find_dir_ready p fs ready in
      ground (arith, e, f, g, view-find_dir (Paths.dir p) fs)

  -- At a path where a file can be put, `readBuffer` returns the file of the path, or that there is
  -- none, `Exists` says whether there is one, and neither changes a file, a version or the revision,
  -- although both make directories on the way.
  pub lookups_refine :
      (seen (read_buffer p fs) ≡ (spec_read (location p) (view fs), view fs))
      × (seen (exists p fs) ≡ (spec_exists (location p) (view fs), view fs))
  lookups_refine = (read_buffer_refines, exists_refines)

  -- At a path where a file can be put, `Remove` does what the store specifies: it takes the file
  -- of the path away, and only that file.
  pub remove_refines : seen (remove p fs) ≡ spec_remove (location p) (view fs)
  unfolding spec_remove remove is_free
  remove_refines =
      let (d, e, f, g) = find_dir_ready p fs ready in
      ground (arith, e, f, g, view-delete p fs ready, rev-view fs, view-find_dir (Paths.dir p) fs)

module _ (m : Machinery) (p : String) (fs : MemoryFs) (ready : IsReady p fs) where
  store_buffer_refines :
      (obj : m.Object) (buf : String)
      → seen (store_buffer m p obj buf fs) ≡ commit m (location p) obj buf (view fs)
  unfolding store_buffer commit increment_rev
  store_buffer_refines obj buf =
      let (d, e, f, g) = find_dir_ready p fs ready in
      ground (
        arith,
        e,
        rev_after (Paths.dir p) fs,
        rev-view fs,
        view-find_dir (Paths.dir p) fs,
        view-increment_rev (find_dir (Paths.dir p) fs).1,
        view-put p fs ready (record { version = (increment_rev fs).rev; content = buf }),
      )

module _ (m : Machinery) (p : String) (fs : MemoryFs) (ready : IsReady p fs) where
  store_after_read :
      (obj : m.Object) (buf : String)
      → seen (store_buffer m p obj buf (find_dir (Paths.dir p) fs).1)
        ≡ commit m (location p) obj buf (view fs)
  store_after_read obj buf =
      store_buffer_refines m p (find_dir (Paths.dir p) fs).1 (find_dir-IsReady p fs ready) obj buf
      ∙ ap (commit m (location p) obj buf) (view-find_dir (Paths.dir p) fs)

  -- The critical section of `Write`.
  write_buffer_refines :
      (obj : m.Object) (buf : String) (version : ℕ)
      → seen (write_buffer m p obj buf version fs)
        ≡ spec_write_bytes m (location p) obj buf version (view fs)
  unfolding write_buffer spec_write_bytes
  write_buffer_refines obj buf version = ground (
    arith,
    found_at p fs ready,
    state_after_read p fs ready,
    view-find_dir (Paths.dir p) fs,
    store_after_read obj buf,
  )

  -- At a path where a file can be put, `Write` returns what the store's write returns, and does to
  -- the files and the revision what that write does: it is refused unless it names the version
  -- that is stored, or 0 for a new file.
  pub write_refines :
      (obj : m.Object) (version : ℕ)
      → seen (write m p obj version fs) ≡ spec_write m (location p) obj version (view fs)
  unfolding write spec_write encode_versionless
  write_refines obj version = grind (arith, write_buffer_refines)
