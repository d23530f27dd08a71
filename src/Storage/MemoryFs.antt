-- ===== src/Storage/MemoryFs.antt =====
-- `MemoryFS` of pkg/storage/filepath/fs.go. Its mutex makes each method one step: `Write` encodes
-- before it locks, and `Read` and `VisitDir` decode after they unlock, from data already read.
pub mod Files
pub mod Refines
pub mod Versions
pub mod Winner
pub mod Removals
pub mod Below
use tilt_apiserver.Base.{
  ℕ, ◌+◌, ◌%◌, ◌^◌, Bool, true, false, ◌||◌, String, ◌=~◌, List, [], ◌∷◌, ◌++◌, Option, none, some,
  Result, ok, err, Error, not_exist, version_error, is_not_exist, ◌==◌, ◌>>=◌, if◌then◌else◌,
}
use tilt_apiserver.Go.Paths
use tilt_apiserver.Storage.Objects.{Machinery}
use tilt_apiserver.Storage.Version.{set_resource_version, clear_resource_version}
use tilt_apiserver.Storage.Tree.{
  VersionedData, Node, directory, contents, Dir, empty, entry, get_entry, set_entry, delete_entry,
  ensure_parts, modify_at,
}
use tilt_apiserver.Storage.FileSystem.{Visitor, FileSystem}

pub record MemoryFs : Type 0 where
  pub dir : Dir
  pub rev : ℕ

unfoldable pub new_memory_fs : MemoryFs
new_memory_fs = record { dir = empty; rev = 1 }

-- `rev` is a uint64.
unfoldable pub increment_rev : MemoryFs → MemoryFs
increment_rev fs = record fs { rev = (fs.rev + 1) % 2 ^ 64 }

-- The parts that `ensureDir` goes through.
unfoldable pub parts_of : String → List String
parts_of path_to_dir = if path_to_dir =~ "." then [] else Paths.split path_to_dir

-- The private `ensureDir`: the map at the path.
unfoldable pub find_dir : String → MemoryFs → Result Dir × MemoryFs
find_dir path_to_dir fs =
    let (r, d) = ensure_parts (parts_of path_to_dir) fs.dir in (r, record fs { dir = d })

-- A change of the map that `find_dir` returned for the path.
unfoldable pub change_dir : String → (Dir → Dir) → MemoryFs → MemoryFs
change_dir path_to_dir change fs = record fs {
  dir = modify_at (parts_of path_to_dir) change fs.dir;
}

unfoldable pub remove : String → MemoryFs → Result (Unit {0}) × MemoryFs
remove p fs =
    let (r, fs') = find_dir (Paths.dir p) fs in
    elim r [
      | err e ↦ (err e, fs')
      | ok d ↦ elim (get_entry (Paths.base p) d) [
        | none ↦ (err not_exist, fs')
        | some node ↦ (ok tt, change_dir (Paths.dir p) (delete_entry (Paths.base p)) fs')
      ]
    ]

unfoldable pub exists : String → MemoryFs → Bool × MemoryFs
exists p fs =
    let (r, fs') = find_dir (Paths.dir p) fs in
    elim r [
      | err e ↦ (false, fs')
      | ok d ↦ elim (get_entry (Paths.base p) d) [ none ↦ (false, fs') | some node ↦ (true, fs') ]
    ]

unfoldable pub ensure_dir : String → MemoryFs → Result (Unit {0}) × MemoryFs
ensure_dir dirname fs =
    let (r, fs') = find_dir dirname fs in elim r [ err e ↦ (err e, fs') | ok d ↦ (ok tt, fs') ]

-- What `readBuffer` makes of the map's entry: a directory is as good as nothing.
unfoldable pub read_entry : Option Node → Result VersionedData
read_entry none = err not_exist
read_entry (some (directory inner)) = err not_exist
read_entry (some (contents v)) = ok v

unfoldable pub read_buffer : String → MemoryFs → Result VersionedData × MemoryFs
unfolding read_entry
read_buffer p fs =
    let (r, fs') = find_dir (Paths.dir p) fs in
    elim r [ err e ↦ (err e, fs') | ok d ↦ (read_entry (get_entry (Paths.base p) d), fs') ]

-- What `Write` does after it has read the file of its path.
pub data Verdict : Type 0 where
  refuse : Error → Verdict
  skip : Verdict
  store : Verdict

unfoldable pub check_write : Result VersionedData → ℕ → String → Verdict
check_write (err e) storage_version buf =
    if is_not_exist e then (if storage_version == 0 then store else refuse e) else refuse e
check_write (ok raw) storage_version buf =
    if raw.version == storage_version
    then (if raw.content =~ buf then skip else store)
    else refuse version_error

-- `strings.HasSuffix(s, ".json")`
unfoldable pub has_suffix : String → String → Bool
has_suffix String.[] suffix = "" =~ suffix
has_suffix (String.◌∷◌ c s) suffix = String.◌∷◌ c s =~ suffix || has_suffix s suffix

-- A file of a walk: its path and the data read.
pub record Found : Type 0 where
  pub key_path : String
  pub raw : VersionedData

-- The recursive `walk` of `readDir`, over the maps as they were found.
unfoldable mutual
  pub walk_dir : String → Dir → List Found → MemoryFs → Result (List Found) × MemoryFs
  walk_dir ancestor empty found fs = (ok found, fs)
  walk_dir ancestor (entry key node d) found fs =
      let (r, fs') = walk_node (Paths.join (ancestor ∷ key ∷ [])) key node found fs in
      elim r [ err e ↦ (err e, fs') | ok found' ↦ walk_dir ancestor d found' fs' ]

  pub walk_node : String → String → Node → List Found → MemoryFs → Result (List Found) × MemoryFs
  walk_node key_path key (directory inner) found fs = walk_dir key_path inner found fs
  walk_node key_path key (contents v) found fs =
      if has_suffix key ".json"
      then (let (r, fs') = read_buffer key_path fs in
          elim r [
            | err e ↦ (err e, fs')
            | ok raw ↦ (ok (found ++ record { key_path = key_path; raw = raw } ∷ []), fs')
          ])
      else (ok found, fs)

unfoldable pub read_dir : String → MemoryFs → Result (List Found) × MemoryFs
read_dir dirname fs =
    let (r, fs') = find_dir dirname fs in
    elim r [ err e ↦ (err e, fs') | ok d ↦ walk_dir dirname d [] fs' ]

module _ (m : Machinery) where
  -- The end of `Write`, once the write is allowed.
  unfoldable pub store_buffer : String → m.Object → String → MemoryFs → Result m.Object × MemoryFs
  unfolding increment_rev
  store_buffer p obj buf fs =
      let (found, fs₁) = find_dir (Paths.dir p) fs in
      elim found [
        | err e ↦ (err e, fs₁)
        | ok d ↦
            let fs₂ = increment_rev fs₁ in
            elim (set_resource_version m obj fs₂.rev) [
              | err e ↦ (err e, fs₂)
              | ok obj' ↦
                  let v : VersionedData = record { version = fs₂.rev; content = buf } in
                  (ok obj', change_dir (Paths.dir p) (set_entry (Paths.base p) (contents v)) fs₂)
            ]
      ]

  -- The critical section of `Write`, with the object encoded in `buf`.
  unfoldable pub write_buffer :
      String → m.Object → String → ℕ → MemoryFs → Result m.Object × MemoryFs
  unfolding check_write
  write_buffer p obj buf storage_version fs =
      let (r, fs') = read_buffer p fs in
      elim (check_write r storage_version buf) [
        | refuse e ↦ (err e, fs')
        | skip ↦ (ok obj, fs')
        | store ↦ store_buffer p obj buf fs'
      ]

  -- The bytes of the object with its resource version cleared.
  unfoldable pub encode_versionless : m.Object → Result String
  encode_versionless obj = clear_resource_version m obj >>= m.encode

  unfoldable pub write : String → m.Object → ℕ → MemoryFs → Result m.Object × MemoryFs
  write p obj storage_version fs = elim (encode_versionless obj) [
    | err e ↦ (err e, fs)
    | ok buf ↦ write_buffer p obj buf storage_version fs
  ]

  unfoldable pub decode_buffer : VersionedData → Result m.Object
  decode_buffer raw = m.decode raw.content >>= λ obj. set_resource_version m obj raw.version

  unfoldable pub read : String → MemoryFs → Result m.Object × MemoryFs
  read p fs = let (r, fs') = read_buffer p fs in (r >>= decode_buffer, fs')

  -- The visits, outside the lock: the file system may be another one at each.
  unfoldable pub visit_found :
      Visitor m MemoryFs → List Found → List m.Object → MemoryFs → Result (List m.Object) × MemoryFs
  visit_found visit [] items fs = (ok items, fs)
  visit_found visit (f ∷ found) items fs = elim (decode_buffer f.raw) [
    | err e ↦ (err e, fs)
    | ok obj ↦
        let (r, fs') = visit f.key_path obj items fs in
        elim r [ err e ↦ (err e, fs') | ok items' ↦ visit_found visit found items' fs' ]
  ]

  unfoldable pub visit_dir :
      String
      → Visitor m MemoryFs
      → MemoryFs
      → Result (record { items : List m.Object; revision : ℕ }) × MemoryFs
  visit_dir dirname visit fs =
      let (r, fs') = read_dir dirname fs in
      elim r [
        | err e ↦ (err e, fs')
        | ok found ↦
            let (visited, fs'') = visit_found visit found [] fs' in
            (visited >>= λ items. ok (record { items = items; revision = fs'.rev }), fs'')
      ]

  abbrev pub memory_fs : FileSystem m
  memory_fs = record {
    State = MemoryFs;
    remove = remove;
    exists = exists;
    ensure_dir = ensure_dir;
    write = write;
    read = read;
    visit_dir = visit_dir;
  }
