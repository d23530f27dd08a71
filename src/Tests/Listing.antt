-- ===== src/Tests/Listing.antt =====
-- Lists and watches of one stored note.
use tilt_apiserver.Base.{
  String, List, if◌then◌else◌, ◌≡◌, refl, [], ◌∷◌, none, some, ok, err, internal,
}
use tilt_apiserver.Go.Paths
use tilt_apiserver.Go.Decimal.{format_uint}
use tilt_apiserver.Storage.Version.{format_resource_version, set_resource_version}
use tilt_apiserver.Storage.Tree.{modify_at, delete_entry, get_entry, set_entry, ensure_parts}
use tilt_apiserver.Storage.MemoryFs.{
  Found, remove, change_dir, memory_fs, has_suffix, find_dir, parts_of, read_entry, read_buffer,
  walk_dir, read_dir, decode_buffer, visit_found, visit_dir,
}
use tilt_apiserver.Storage.MemoryFs.Files.{view}
use tilt_apiserver.Storage.WatchSet.{new_watch, new_watch_set, set_node, Notifies}
use tilt_apiserver.Storage.Rest.{
  FilepathRest, ObjectList, Event, object_dir_name, collect_matching, finish_list, set_list_version,
  new_selection_predicate, list, delete_collection, remove_matching, added,
}
use tilt_apiserver.Storage.Rest.Found.{AllThere}
use tilt_apiserver.Storage.Rest.Gathered.{gather, list-gather}
use tilt_apiserver.Storage.Rest.Collection.{has_match, delete_collection-removes}
use tilt_apiserver.Storage.WatchSet.Blocked.{made, unchanged}
use tilt_apiserver.Storage.Rest.Watch.{watch}
use tilt_apiserver.Storage.Rest.Watch.Initial.{watch_of, watch-sends_listed, watch_failed_blocks}
use tilt_apiserver.Tests.Machine.{note, notes, note_registry, rest, context}
use tilt_apiserver.Tests.Storage.{one_file, some_file}

abbrev pub one_note : ObjectList notes
one_note = record { resource_version = "2"; items = note "hello" "2" ∷ [] }

pub list_run :
    (list notes note_registry (memory_fs notes) rest context none one_file).0 ≡ ok one_note
unfolding list visit_dir read_dir walk_dir find_dir parts_of get_entry set_entry ensure_parts
    read_entry read_buffer has_suffix decode_buffer visit_found collect_matching finish_list
    set_list_version new_selection_predicate object_dir_name set_resource_version
    format_resource_version format_uint Paths.join Paths.dir Paths.base
list_run = refl

list-gather_example :
    (found : List Found) × ((read_dir (object_dir_name rest context) one_file).0 ≡ ok found)
    × AllThere (view one_file) found
    × (note "hello" "2" ∷ []
        ≡ gather notes note_registry (new_selection_predicate notes note_registry none) found)
    × ("2" ≡ format_resource_version (view one_file).rev)
list-gather_example = list-gather notes note_registry rest context none one_file one_note list_run

watch-sends_listed_example :
    let w = watch notes note_registry (memory_fs notes) rest context none one_file new_watch_set in
    (w.failed ≡ none)
    × (w.watch_set.nodes
        ≡ set_node
            (watch_of notes note_registry rest context none new_watch_set (note "hello" "2" ∷ []))
            (new_watch_set {E = Event notes}).nodes)
    × (view w.files ≡ view one_file)
watch-sends_listed_example =
    watch-sends_listed notes note_registry rest context none one_file new_watch_set one_note
      list_run

-- A kind whose list has no items.
abbrev unlistable : FilepathRest
unlistable = record rest { list_err = some (internal "need ptr to slice") }

failed_run :
    (list notes note_registry (memory_fs notes) unlistable context none one_file).0
    ≡ err (internal "need ptr to slice")
unfolding list
failed_run = refl

abbrev note_added : Event notes
note_added = record { kind = added; object = note "hello" "2" }

watch_failed_blocks_example :
    let w =
      watch notes note_registry (memory_fs notes) unlistable context none one_file new_watch_set in
    (w.failed ≡ some (internal "need ptr to slice"))
    × (¬ Notifies note_added (new_watch w.watch_set).1.nodes [])
watch_failed_blocks_example =
    watch_failed_blocks notes note_registry (memory_fs notes) unlistable context none one_file
      new_watch_set
      (new_watch
        (watch notes note_registry (memory_fs notes) unlistable context none one_file
          new_watch_set).watch_set).1
      (internal "need ptr to slice") note_added [] failed_run (made unchanged)

pub collection_run :
    (delete_collection notes note_registry (memory_fs notes) rest context none some_file).0
    ≡ ok one_note
unfolding delete_collection remove_matching remove change_dir modify_at delete_entry visit_dir
    read_dir walk_dir find_dir parts_of get_entry set_entry ensure_parts read_entry read_buffer
    has_suffix decode_buffer visit_found finish_list set_list_version new_selection_predicate
    object_dir_name set_resource_version format_resource_version format_uint Paths.join Paths.dir
    Paths.base
collection_run = refl

delete_collection-removes_example :
    (found : List Found) × ((read_dir (object_dir_name rest context) one_file).0 ≡ ok found)
    × AllThere (view one_file) found
    × ((q : List String)
        → (view
              (delete_collection notes note_registry
                (memory_fs notes)
                rest
                context
                none
                some_file).1.files).files
            q
          ≡ (if has_match notes note_registry
                (new_selection_predicate notes note_registry none)
                found
                q
              then none
              else (view one_file).files q))
delete_collection-removes_example =
    delete_collection-removes notes note_registry rest context none some_file one_note
      collection_run
