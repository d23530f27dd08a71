-- ===== src/Tests/Update.antt =====
-- Updates of a stored note, and its deletion where it has a finalizer.
use tilt_apiserver.Base.{
  ◌≡◌, ◌≢◌, refl, Option, some, none, Result, ok, err, conflict, false, ◌∷◌, [], arith,
}
use tilt_apiserver.Go.Paths
use tilt_apiserver.Go.Decimal.{format_uint, parse_uint}
use tilt_apiserver.Storage.Version.{
  format_resource_version, set_resource_version, clear_resource_version, get_resource_version,
  parse_resource_version,
}
use tilt_apiserver.Storage.Tree.{get_entry, set_entry, ensure_parts, modify_at, file_at}
use tilt_apiserver.Storage.Spec.{spec_write, spec_write_bytes, commit}
use tilt_apiserver.Storage.MemoryFs.{
  MemoryFs, memory_fs, parts_of, find_dir, change_dir, increment_rev, read_entry, decode_buffer,
  read, read_buffer, check_write, write_buffer, store_buffer, encode_versionless, write,
}
use tilt_apiserver.Storage.MemoryFs.Files.{location, view}
use tilt_apiserver.Storage.Contract.Memory.{memory_implements}
use tilt_apiserver.Storage.Rest.{object_file_name, get, modified, notify_watchers}
use tilt_apiserver.Storage.Rest.TryUpdate.{Outcome, changes}
use tilt_apiserver.Storage.Rest.Update.{
  guaranteed_update, update_loop, attempt_update, attempt_input, update,
}
use tilt_apiserver.Storage.Rest.Update.NoLostUpdate.{IsCommitted, guaranteed_update-IsCommitted}
use tilt_apiserver.Storage.Rest.Update.Undisturbed.{guaranteed_update_undisturbed}
use tilt_apiserver.Tests.Machine.{
  Note, note, notes, notes_lawful, note_registry, rest, context, nobody, held_registry,
}
use tilt_apiserver.Storage.Rest.Update.Conflict.{update_outdated}
use tilt_apiserver.Storage.Rest.Remove.{delete, delete_later, mark_deleted}
use tilt_apiserver.Storage.Rest.Remove.Kept.{delete_kept}
use tilt_apiserver.Tests.Storage.{some_file, one_file, file-IsReady, file_there}

-- The function of an update: it changes the text, and leaves the files.
abbrev pub edit : Option Note → MemoryFs → Result (Note × Outcome) × MemoryFs
edit input s = (ok (note "bye" "2", changes), s)

update_run :
    (guaranteed_update notes note_registry
      (memory_fs notes)
      rest
      context
      "web"
      nobody
      edit
      one_file).0
    ≡ ok (note "bye" "3", changes)
unfolding guaranteed_update update_loop attempt_update attempt_input get get_resource_version
    parse_resource_version parse_uint write encode_versionless clear_resource_version check_write
    write_buffer store_buffer change_dir modify_at increment_rev read decode_buffer
    set_resource_version format_resource_version format_uint object_file_name Paths.join Paths.dir
    Paths.base parts_of find_dir get_entry ensure_parts read_entry read_buffer set_entry
update_run = refl

guaranteed_update-IsCommitted_example :
    IsCommitted notes note_registry
      (memory_fs notes)
      rest
      (memory_implements notes)
      context
      "web"
      nobody
      edit
      (note "bye" "3")
      changes
guaranteed_update-IsCommitted_example =
    guaranteed_update-IsCommitted notes note_registry (memory_fs notes) rest
      (memory_implements notes) context "web" nobody edit (λ n s ready. ready)
      (λ input s ready. ready) one_file (note "bye" "3") changes file-IsReady update_run

get_run :
    (get notes note_registry (memory_fs notes) rest context "web" one_file).0
    ≡ ok (note "hello" "2")
unfolding get read decode_buffer set_resource_version format_resource_version format_uint
    object_file_name Paths.join Paths.dir Paths.base parts_of find_dir get_entry ensure_parts
    read_entry read_buffer set_entry
get_run = refl

get_stays : (get notes note_registry (memory_fs notes) rest context "web" one_file).1 ≡ one_file
unfolding get read decode_buffer set_resource_version format_resource_version format_uint
    object_file_name Paths.join Paths.dir Paths.base parts_of find_dir get_entry ensure_parts
    read_entry read_buffer set_entry
get_stays = refl

write_run :
    (spec_write notes
      (location (object_file_name rest context "web"))
      (note "bye" "2")
      2
      (view one_file)).0
    ≡ ok (note "bye" "3")
unfolding spec_write spec_write_bytes commit clear_resource_version set_resource_version
    format_resource_version format_uint location view file_at object_file_name Paths.join Paths.dir
    Paths.base parts_of get_entry
write_run = refl

guaranteed_update_undisturbed_example :
    let done =
      guaranteed_update notes note_registry
        (memory_fs notes)
        rest
        context
        "web"
        nobody
        edit
        one_file in
    (done.0 ≡ ok (note "bye" "3", changes))
    × (view done.1
        ≡ (spec_write notes
            (location (object_file_name rest context "web"))
            (note "bye" "2")
            2
            (view one_file)).1)
guaranteed_update_undisturbed_example =
    guaranteed_update_undisturbed notes note_registry (memory_fs notes) rest
      (memory_implements notes) notes_lawful context "web" nobody edit one_file file-IsReady
      (λ n t. refl) refl (record { version = 2; content = "hello" }) (note "hello" "2")
      (note "bye" "2") (note "bye" "3") changes file_there (omega arith) get_run refl refl
      (rw get_stays file-IsReady) write_run

-- An object that was read before the last write.
abbrev pub old_edit : Option Note → Result Note
old_edit input = ok (note "bye" "1")

versions_run :
    (get_resource_version notes (some (note "hello" "2")) ≡ ok 2)
    × (get_resource_version notes (some (note "bye" "1")) ≡ ok 1)
unfolding get_resource_version parse_resource_version parse_uint
versions_run = (refl, refl)

update_outdated_example :
    let r =
      update notes note_registry
        (memory_fs notes)
        rest
        context
        "web"
        nobody
        old_edit
        none
        none
        false
        some_file in
    (r.0 ≡ err (conflict "web")) × (view r.1.files ≡ view one_file) × (r.1.notified ≡ [])
update_outdated_example =
    update_outdated notes note_registry (memory_fs notes) rest (memory_implements notes) context
      "web" nobody old_edit none none false some_file file-IsReady refl refl (note "hello" "2")
      (note "bye" "1") 2 1 get_run refl versions_run.0 versions_run.1 refl

delete_run :
    (delete notes held_registry (memory_fs notes) rest context "web" nobody 5 none some_file).0
    ≡ ok (record { object = note "hello" "2"; at_once = false })
unfolding delete delete_later mark_deleted notify_watchers get get_resource_version
    parse_resource_version parse_uint write encode_versionless clear_resource_version check_write
    write_buffer store_buffer change_dir modify_at increment_rev read decode_buffer
    set_resource_version format_resource_version format_uint object_file_name Paths.join Paths.dir
    Paths.base parts_of find_dir get_entry ensure_parts read_entry read_buffer set_entry
delete_run = refl

delete_kept_example :
    let w =
      (delete notes held_registry (memory_fs notes) rest context "web" nobody 5 none some_file).1 in
    ((view w.files).files (location (object_file_name rest context "web")) ≢ none)
    × (w.notified ≡ record { kind = modified; object = note "hello" "2" } ∷ [])
delete_kept_example =
    delete_kept notes held_registry (memory_fs notes) rest (memory_implements notes) context "web"
      nobody (λ s ready. ready) 5 none (note "hello" "2") some_file file-IsReady delete_run
