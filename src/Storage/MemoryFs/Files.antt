-- ===== src/Storage/MemoryFs/Files.antt =====
-- The files of a `MemoryFS` by location, and what looking for a directory does to them.
use tilt_apiserver.Base.{◌≡◌, refl, true, String, List, [], ◌∷◌, ◌++◌, none, some, ok, ap}
use mathlib.Core.Path.{fun_ext}
use tilt_apiserver.Go.Paths
use tilt_apiserver.Storage.Tree.{
  VersionedData, Dir, contents, get_entry, set_entry, delete_entry, file_at, is_free,
}
use tilt_apiserver.Storage.Tree.Ensure.{
  as_file, file_at-ensure, entry-ensure, ensure_is_free, entry_is_free,
}
use tilt_apiserver.Storage.Tree.Modify.{file_at-put, file_at-delete}
use tilt_apiserver.Storage.Tree.Free.{is_free-put, is_free-delete, is_free-ensure}
use tilt_apiserver.Storage.Spec.{Store, with_file}
use tilt_apiserver.Storage.MemoryFs.{MemoryFs, parts_of, find_dir, change_dir, increment_rev}

-- The location that a path leads to.
unfoldable pub location : String → List String
location p = parts_of (Paths.dir p) ++ Paths.base p ∷ []

-- The state that a client sees.
unfoldable pub view : MemoryFs → Store
view fs = record { files = λ q. file_at q fs.dir; rev = fs.rev }

-- A result, with the state that a client sees after it.
abbrev pub seen : {A : Type 0} → A × MemoryFs → A × Store
seen (r, fs) = (r, view fs)

-- A file can be put at the path: it is no directory, and there is no file on the way to it.
abbrev pub IsReady : String → MemoryFs → Type 0
IsReady p fs = is_free (location p) fs.dir ≡ true

pub rev-view : (fs : MemoryFs) → (view fs).rev ≡ fs.rev
unfolding view
rev-view fs = refl

-- A higher revision, and the same files.
pub view-increment_rev :
    (fs : MemoryFs) → view (increment_rev fs) ≡ record (view fs) { rev = (increment_rev fs).rev }
unfolding view increment_rev
view-increment_rev fs = refl

pub view-find_dir : (p : String) (fs : MemoryFs) → view (find_dir p fs).1 ≡ view fs
unfolding view find_dir
view-find_dir p fs =
    ap (λ f. record { files = f; rev = fs.rev }) (fun_ext λ q. file_at-ensure (parts_of p) q fs.dir)

-- At a ready path the directory is found, and its entry is the file of the location.
pub find_dir_ready :
    (p : String) (fs : MemoryFs)
    → IsReady p fs
    → (d : Dir) × ((find_dir (Paths.dir p) fs).0 ≡ ok d)
      × (as_file (get_entry (Paths.base p) d) ≡ (view fs).files (location p))
      × (is_free (Paths.base p ∷ []) d ≡ true)
unfolding view location find_dir
find_dir_ready p fs h =
    let (d, e) = ensure_is_free (parts_of (Paths.dir p)) (Paths.base p) fs.dir h in
    (
      d,
      e,
      entry-ensure (parts_of (Paths.dir p)) (Paths.base p) fs.dir d e,
      entry_is_free (parts_of (Paths.dir p)) (Paths.base p) fs.dir d h e,
    )

module _ (p : String) (fs : MemoryFs) (ready : IsReady p fs) where
  -- `dir[base] = versionedData` through the directory of the path, after the revision went up.
  pub view-put :
      (v : VersionedData)
      → view (
          change_dir
            (Paths.dir p)
            (set_entry (Paths.base p) (contents v))
            (increment_rev (find_dir (Paths.dir p) fs).1))
        ≡ with_file (location p) (some v) (increment_rev fs).rev (view fs)
  unfolding view change_dir find_dir location increment_rev with_file
  view-put v =
      ap (λ f. record { files = f; rev = (increment_rev fs).rev })
        (fun_ext λ q. file_at-put (parts_of (Paths.dir p)) (Paths.base p) v q fs.dir ready)

  -- `delete(dir, base)` through the directory of the path.
  pub view-delete :
      view (change_dir (Paths.dir p) (delete_entry (Paths.base p)) (find_dir (Paths.dir p) fs).1)
      ≡ with_file (location p) none fs.rev (view fs)
  unfolding view change_dir find_dir location with_file
  view-delete =
      ap (λ f. record { files = f; rev = fs.rev })
        (fun_ext λ q. file_at-delete (parts_of (Paths.dir p)) (Paths.base p) q fs.dir ready)

  pub find_dir-IsReady : IsReady p (find_dir (Paths.dir p) fs).1
  unfolding find_dir location
  find_dir-IsReady = is_free-ensure (parts_of (Paths.dir p)) (Paths.base p) fs.dir ready

  pub put-IsReady :
      (v : VersionedData)
      → IsReady p (
          change_dir
            (Paths.dir p)
            (set_entry (Paths.base p) (contents v))
            (increment_rev (find_dir (Paths.dir p) fs).1))
  unfolding change_dir find_dir location increment_rev
  put-IsReady v =
      is_free-put (parts_of (Paths.dir p)) (Paths.base p) (Paths.base p) v fs.dir ready ready

  pub delete-IsReady :
      IsReady p
        (change_dir (Paths.dir p) (delete_entry (Paths.base p)) (find_dir (Paths.dir p) fs).1)
  unfolding change_dir find_dir location
  delete-IsReady =
      is_free-delete (parts_of (Paths.dir p)) (Paths.base p) (Paths.base p) fs.dir ready ready

pub increment-IsReady : (p : String) (fs : MemoryFs) → IsReady p fs → IsReady p (increment_rev fs)
unfolding increment_rev
increment-IsReady p fs h = h
