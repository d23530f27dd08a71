-- ===== src/Tests/Complete.antt =====
-- A stored note by its name and in the lists.
use mathlib.Core.List.{Mem}
use tilt_apiserver.Base.{true, List, ◌≡◌, refl, String, [], ◌∷◌, none, ok, err, not_found, inr}
use tilt_apiserver.Go.Paths
use tilt_apiserver.Go.Paths.{render}
use tilt_apiserver.Go.Paths.Parts.{all_plain}
use tilt_apiserver.Go.Decimal.{format_uint}
use tilt_apiserver.Storage.Version.{format_resource_version, set_resource_version}
use tilt_apiserver.Storage.Tree.{get_entry, ensure_parts, set_entry}
use tilt_apiserver.Storage.MemoryFs.{
  memory_fs, find_dir, parts_of, read_entry, read_buffer, decode_buffer, read,
}
use tilt_apiserver.Storage.Rest.{delete_collection, object_file_name, get}
use tilt_apiserver.Storage.Rest.Named.{IsNamed, Covers}
use tilt_apiserver.Storage.Rest.Complete.{get-list, delete_collection-get}
use tilt_apiserver.Tests.Machine.{note, notes, note_registry, rest, context}
use tilt_apiserver.Tests.Storage.{one_file, some_file}
use tilt_apiserver.Tests.Listing.{one_note, list_run, collection_run}

abbrev data_parts : List String
data_parts = "data" ∷ []

get_run :
    (get notes note_registry (memory_fs notes) rest context "web" one_file).0
    ≡ ok (note "hello" "2")
unfolding get read read_buffer find_dir parts_of get_entry set_entry ensure_parts read_entry
    decode_buffer object_file_name set_resource_version format_resource_version format_uint
    Paths.join Paths.dir Paths.base
get_run = refl

web-IsNamed : IsNamed rest true data_parts context "web"
unfolding render all_plain
web-IsNamed = record {
  root_path = refl;
  parts_plain = refl;
  below_root = refl;
  scope_plain = refl;
  name_plain = refl;
}

covers : Covers context context
covers = inr refl

get-list_example : Mem (note "hello" "2") one_note.items
get-list_example =
    get-list notes note_registry rest true data_parts context context "web" none (note "hello" "2")
      web-IsNamed covers refl one_file one_note get_run list_run

delete_collection-get_example :
    Mem (note "hello" "2") one_note.items
    × (get notes note_registry
        (memory_fs notes)
        rest
        context
        "web"
        (delete_collection notes note_registry
          (memory_fs notes)
          rest
          context
          none
          some_file).1.files).0
      ≡ err (not_found "web")
delete_collection-get_example =
    delete_collection-get notes note_registry rest true data_parts context context "web" none
      (note "hello" "2") web-IsNamed covers refl some_file one_note get_run collection_run
