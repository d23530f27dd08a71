-- ===== src/Storage/MemoryFs/Removals.antt =====
-- About removals of files that a `MemoryFS` has, one after the other.
use tilt_apiserver.Base.{
  ◌≡◌, ap, true, String, List, [], ◌∷◌, ◌++◌, none, some, ok, Option-cases, Result-cases, inl, inr,
  arith, if◌then◌else◌,
}
use mathlib.Core.Path.{subst}
use tilt_apiserver.Go.Paths
use tilt_apiserver.Storage.Tree.{VersionedData, get_entry, delete_entry, ensure_parts}
use tilt_apiserver.Storage.Tree.Ensure.{entry-ensure}
use tilt_apiserver.Storage.Tree.Modify.{same, same_iff}
use tilt_apiserver.Storage.Tree.Opens.{
  opens, file_at-opens, file_at-is_free, ensure-opens, is_free-modify, opens-modify,
}
use tilt_apiserver.Storage.Spec.{spec_remove, with_file}
use tilt_apiserver.Storage.MemoryFs.{
  MemoryFs, parts_of, find_dir, change_dir, remove, read_buffer, read_entry,
}
use tilt_apiserver.Storage.MemoryFs.Files.{location, view, IsReady}
use tilt_apiserver.Storage.MemoryFs.Refines.{remove_refines}

-- The directory of the path is there, and a file can be put at the path.
pub record IsPlaced (p : String) (fs : MemoryFs) : Type 0 where
  pub opened : opens (parts_of (Paths.dir p)) fs.dir ≡ true
  pub ready : IsReady p fs

pub file-IsPlaced :
    (p : String) (v : VersionedData) (fs : MemoryFs)
    → (view fs).files (location p) ≡ some v
    → IsPlaced p fs
unfolding view location
file-IsPlaced p v fs h = record {
  opened = file_at-opens (parts_of (Paths.dir p)) (Paths.base p) v fs.dir h;
  ready = file_at-is_free (parts_of (Paths.dir p) ++ Paths.base p ∷ []) v fs.dir h;
}

find_dir-same : (p : String) (fs : MemoryFs) → IsPlaced p fs → (find_dir (Paths.dir p) fs).1 ≡ fs
unfolding find_dir
find_dir-same p fs h =
    ap (λ d. record fs { dir = d }) (ensure-opens (parts_of (Paths.dir p)) fs.dir h.opened).0

-- A removal of a file that is placed keeps another one placed.
pub remove-IsPlaced :
    (p q : String) (fs : MemoryFs) → IsPlaced p fs → IsPlaced q fs → IsPlaced q (remove p fs).1
unfolding remove change_dir location
remove-IsPlaced p q fs h k =
    let e = find_dir-same p fs h in
    let gone : MemoryFs = change_dir (Paths.dir p) (delete_entry (Paths.base p)) fs in
    let placed : IsPlaced q gone = record {
      opened =
          opens-modify (parts_of (Paths.dir p)) (Paths.base p) (parts_of (Paths.dir q)) fs.dir
            h.ready k.opened;
      ready = is_free-modify (parts_of (Paths.dir p)) (Paths.base p) (location q) fs.dir k.ready;
    } in
    elim (Result-cases (find_dir (Paths.dir p) fs).0) [
      | inr (x, r) ↦ subst (IsPlaced q) (ground (arith, r, e)) k
      | inl (d, r) ↦ elim (Option-cases (get_entry (Paths.base p) d)) [
        | inl o ↦ subst (IsPlaced q) (ground (arith, r, e, o)) k
        | inr (node, o) ↦ subst (IsPlaced q) (ground (arith, r, e, o)) placed
      ]
    ]

-- After a removal there is no file at the location, and every other file is as before.
pub files-remove :
    (p : String) (fs : MemoryFs) (q : List String)
    → IsPlaced p fs
    → (view (remove p fs).1).files q ≡ (if same (location p) q then none else (view fs).files q)
unfolding spec_remove with_file
files-remove p fs q h = ground (arith, remove_refines p fs h.ready, same_iff (location p) q)

-- What `readBuffer` finds is the file of the path.
pub read_buffer-there :
    (p : String) (v : VersionedData) (fs : MemoryFs)
    → (read_buffer p fs).0 ≡ ok v
    → (view fs).files (location p) ≡ some v
unfolding read_buffer read_entry find_dir view location
read_buffer-there p v fs h = elim (Result-cases (ensure_parts (parts_of (Paths.dir p)) fs.dir).0) [
  | inr (e, r) ↦ absurd (ground (arith, h, r))
  | inl (d, r) ↦
      ground (arith, h, r, entry-ensure (parts_of (Paths.dir p)) (Paths.base p) fs.dir d r)
]
