-- ===== src/Tests/Storage.antt =====
-- The file systems and the REST storage on concrete files.
use tilt_apiserver.Base.{
  ◌≡◌, refl, true, String, [], ◌∷◌, none, some, ok, err, not_found, already_exists,
}
use tilt_apiserver.Go.Paths
use tilt_apiserver.Go.Decimal.{format_uint}
use tilt_apiserver.Storage.Version.{
  format_resource_version, set_resource_version, clear_resource_version,
}
use tilt_apiserver.Storage.Tree.{
  contents, directory, empty, entry, is_free, get_entry, file_at, ensure_parts, set_entry,
  delete_entry, modify_at,
}
use tilt_apiserver.Storage.Spec.{spec_read, spec_exists, spec_remove, spec_write}
use tilt_apiserver.Storage.MemoryFs.{
  MemoryFs, memory_fs, new_memory_fs, parts_of, find_dir, change_dir, increment_rev, read_entry,
  decode_buffer, read, check_write, write_buffer, store_buffer, encode_versionless, remove, exists,
  read_buffer, write,
}
use tilt_apiserver.Storage.MemoryFs.Files.{location, view, seen, IsReady}
use tilt_apiserver.Storage.MemoryFs.Refines.{lookups_refine, remove_refines, write_refines}
use tilt_apiserver.Storage.Contract.Memory.{memory_implements}
use tilt_apiserver.Storage.Rest.{World, added, deleted, get, object_file_name, notify_watchers}
use tilt_apiserver.Storage.Rest.Remove.{delete, delete_now}
use tilt_apiserver.Storage.Rest.Remove.Gone.{delete-get}
use tilt_apiserver.Storage.Rest.Write.{create_file, create, ensure_namespace, run_validation}
use tilt_apiserver.Storage.Rest.Create.{create_file_existing, create-get}
use tilt_apiserver.Tests.Machine.{
  Note, notes_back, note, notes, notes_lawful, note_registry, rest, context, nobody,
}

abbrev pub path : String
path = "/data/web.json"

-- One file of version 2 in the directory of the notes.
abbrev pub one_file : MemoryFs
one_file = record {
  dir =
      entry ""
        (directory (
          entry "data"
            (directory
              (entry "web.json" (contents (record { version = 2; content = "hello" })) empty))
            empty))
        empty;
  rev = 2;
}

one_file-IsReady : IsReady path one_file
unfolding is_free location parts_of Paths.dir get_entry Paths.base
one_file-IsReady = refl

write_refines_example :
    seen (write notes path (note "bye" "2") 2 one_file)
    ≡ spec_write notes (location path) (note "bye" "2") 2 (view one_file)
write_refines_example = write_refines notes path one_file one_file-IsReady (note "bye" "2") 2

remove_refines_example : seen (remove path one_file) ≡ spec_remove (location path) (view one_file)
remove_refines_example = remove_refines path one_file one_file-IsReady

lookups_refine_example :
    (seen (read_buffer path one_file) ≡ (spec_read (location path) (view one_file), view one_file))
    × (seen (exists path one_file) ≡ (spec_exists (location path) (view one_file), view one_file))
lookups_refine_example = lookups_refine path one_file one_file-IsReady

abbrev pub no_files : World notes (memory_fs notes)
no_files = record { files = new_memory_fs; notified = [] }

abbrev pub some_file : World notes (memory_fs notes)
some_file = record { files = one_file; notified = [] }

pub path-IsReady : IsReady (object_file_name rest context "web") new_memory_fs
unfolding is_free location parts_of Paths.dir get_entry object_file_name new_memory_fs Paths.join
path-IsReady = refl

pub file-IsReady : IsReady (object_file_name rest context "web") one_file
unfolding is_free location parts_of Paths.dir get_entry object_file_name Paths.join Paths.base
file-IsReady = refl

pub file_there :
    (view one_file).files (location (object_file_name rest context "web"))
    ≡ some (record { version = 2; content = "hello" })
unfolding location view parts_of Paths.dir get_entry object_file_name file_at Paths.join Paths.base
file_there = refl

create_run :
    (create notes note_registry
      (memory_fs notes)
      rest
      context
      nobody
      (note "hello" "")
      none
      no_files).0
    ≡ ok (note "hello" "2")
unfolding create ensure_namespace create_file exists write encode_versionless clear_resource_version
    check_write write_buffer store_buffer set_resource_version format_resource_version format_uint
    object_file_name notify_watchers Paths.join Paths.dir Paths.base parts_of find_dir get_entry
    new_memory_fs ensure_parts read_entry read_buffer set_entry change_dir modify_at increment_rev
create_run = refl

create-IsReady :
    (obj : Note)
    → IsReady
        (object_file_name rest context (note_registry.get_name obj))
        (ensure_namespace notes note_registry (memory_fs notes) rest context new_memory_fs).1
unfolding ensure_namespace
create-IsReady obj = path-IsReady

create-get_example :
    let w =
      (create notes note_registry
        (memory_fs notes)
        rest
        context
        nobody
        (note "hello" "")
        none
        no_files).1 in
    (obj' : Note) × (note_registry.before_create (note "hello" "") ≡ ok obj')
    × (run_validation none (some obj') ≡ none)
    × ((get notes note_registry
          (memory_fs notes)
          rest
          context
          (note_registry.get_name obj')
          w.files).0
        ≡ ok (note "hello" "2"))
    × (w.notified ≡ record { kind = added; object = note "hello" "2" } ∷ [])
create-get_example =
    create-get notes note_registry (memory_fs notes) rest (memory_implements notes) notes_lawful
      notes_back context nobody (note "hello" "") none no_files (note "hello" "2")
      (λ obj h. create-IsReady obj) (λ s. refl) create_run

create_file_existing_example :
    let r =
      create_file notes note_registry
        (memory_fs notes)
        rest
        context
        nobody
        (note "bye" "")
        some_file in
    (r.0 ≡ err (already_exists "web")) × (view r.1.files ≡ view one_file) × (r.1.notified ≡ [])
create_file_existing_example =
    create_file_existing notes note_registry (memory_fs notes) rest (memory_implements notes)
      context nobody (note "bye" "") some_file (record { version = 2; content = "hello" })
      file-IsReady file_there

delete_run :
    (delete notes note_registry (memory_fs notes) rest context "web" nobody 5 none some_file).0
    ≡ ok (record { object = note "hello" "2"; at_once = true })
unfolding delete delete_now get read decode_buffer remove delete_entry set_resource_version
    format_resource_version format_uint object_file_name notify_watchers Paths.join Paths.dir
    Paths.base parts_of find_dir get_entry new_memory_fs ensure_parts read_entry read_buffer
    set_entry change_dir modify_at increment_rev
delete_run = refl

delete-get_example :
    let w =
      (delete notes note_registry (memory_fs notes) rest context "web" nobody 5 none some_file).1 in
    ((get notes note_registry (memory_fs notes) rest context "web" w.files).0
      ≡ err (not_found "web"))
    × (w.notified ≡ record { kind = deleted; object = note "hello" "2" } ∷ [])
delete-get_example =
    delete-get notes note_registry (memory_fs notes) rest (memory_implements notes) context "web"
      nobody (λ t. refl) 5 none (note "hello" "2") some_file file-IsReady delete_run
