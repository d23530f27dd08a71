-- ===== src/Tests/Providers.antt =====
-- Providers of storage on concrete resources.
use tilt_apiserver.Base.{◌≡◌, ◌≢◌, refl, ℕ, ◌+◌, false, String, none, some, Option, Error, other}
use tilt_apiserver.Go.Paths
use tilt_apiserver.Storage.Tree.{ensure_parts, get_entry, set_entry}
use tilt_apiserver.Storage.MemoryFs.{
  MemoryFs, memory_fs, new_memory_fs, ensure_dir, find_dir, parts_of,
}
use tilt_apiserver.Builder.Register.{GroupResource, group_resource}
use tilt_apiserver.Storage.Provider.{
  Provided, panicked, made, failed, FileResource, FileStorage, new_filepath_rest, json_provider,
}
use tilt_apiserver.Storage.Provider.Fresh.{fresh, provided, json_provider-made}
use tilt_apiserver.Builder.Provider.{status_storage, status_of, status_get}
use tilt_apiserver.Builder.Provider.Shared.{file_checks, status_get-shares}
use tilt_apiserver.Server.Start.{get_rest_options}
use tilt_apiserver.Tests.Machine.{notes}
use tilt_apiserver.Tests.Server.{server_options}

abbrev note_kind : FileResource
note_kind = record {
  gvr = record { group = "core"; version = "v1"; resource = "notes" };
  namespace_scoped = false;
  list_err = none;
}

-- The getter of a server's options.
abbrev codecs : GroupResource → Option Error
codecs = get_rest_options server_options

-- The storage of the notes, with the watch set 1 and the strategy of this name.
abbrev note_storage : String → FileStorage ℕ String
note_storage strategy = record {
  rest = record { obj_root_path = "/data/core/notes"; namespace_scoped = false; list_err = none };
  watch_set = 1;
  strategy = strategy;
}

abbrev watches : ℕ
watches = 1

abbrev note_provider :
    String → (GroupResource → Option Error) → MemoryFs → Provided (FileStorage ℕ String) × MemoryFs
note_provider strategy = json_provider notes (memory_fs notes) note_kind "/data" watches strategy

abbrev one_kind : MemoryFs
one_kind = (note_provider "default" codecs new_memory_fs).1

json_provider-made_example :
    let r = (note_provider "status" codecs one_kind).0 in
    (r ≢ panicked) × ((e : Error) → r ≡ failed e → codecs (group_resource note_kind.gvr) ≡ some e)
json_provider-made_example =
    json_provider-made notes ℕ String one_kind note_kind "/data" 1 "status" codecs
      (provided note_kind "/data" 1 "default" codecs fresh)

made_run : (note_provider "default" codecs new_memory_fs).0 ≡ made (note_storage "default")
unfolding get_rest_options json_provider new_filepath_rest ensure_dir find_dir parts_of ensure_parts
    new_memory_fs Paths.join get_entry set_entry
made_run = refl

abbrev refusal : FileStorage ℕ String → Error
refusal storage = other "status storage does not support update"

status_run :
    (status_get (file_checks refusal (other "nil")) (note_provider "status") codecs one_kind).0
    ≡ made (record { updater = note_storage "status"; getter = note_storage "status" })
unfolding status_get status_of status_storage get_rest_options json_provider new_filepath_rest
    ensure_dir find_dir parts_of ensure_parts new_memory_fs Paths.join get_entry set_entry
status_run = refl

status_get-shares_example :
    (note_storage "status" ≡ record (note_storage "default") { strategy = "status" })
    × (note_storage "status" ≡ note_storage "status")
status_get-shares_example =
    status_get-shares notes (memory_fs notes) note_kind "/data" 1 refusal (other "nil") "default"
      "status" codecs new_memory_fs one_kind (note_storage "default")
      (record { updater = note_storage "status"; getter = note_storage "status" }) made_run
      status_run

-- A provider that counts its calls.
abbrev counting : String → ℕ → Provided String × ℕ
counting name calls = (made name, calls + 1)
