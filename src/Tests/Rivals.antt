-- ===== src/Tests/Rivals.antt =====
-- Two writes to a note that name the same version.
use tilt_apiserver.Base.{◌≡◌, refl, ok, err, Error, arith}
use tilt_apiserver.Go.Paths
use tilt_apiserver.Go.Decimal.{format_uint}
use tilt_apiserver.Storage.Version.{
  format_resource_version, set_resource_version, clear_resource_version,
}
use tilt_apiserver.Storage.Tree.{is_free, get_entry, set_entry, ensure_parts, modify_at}
use tilt_apiserver.Storage.Contract.Memory.{memory_implements}
use tilt_apiserver.Storage.MemoryFs.{
  MemoryFs, new_memory_fs, write, parts_of, find_dir, change_dir, increment_rev, read_entry,
  read_buffer, check_write, write_buffer, store_buffer, encode_versionless,
}
use tilt_apiserver.Storage.MemoryFs.Files.{location, view, IsReady}
use tilt_apiserver.Storage.MemoryFs.Versions.{fresh, wrote, Run-IsNumbered}
use tilt_apiserver.Storage.MemoryFs.Winner.{second_write_refused}
use tilt_apiserver.Storage.Spec.Versions.{HasVersions}
use tilt_apiserver.Tests.Machine.{note, notes}
use tilt_apiserver.Tests.Storage.{path}

-- The note in version 2, and after the first write in version 3.
abbrev stored : MemoryFs
stored = (write notes path (note "hello" "") 0 new_memory_fs).1

abbrev rewritten : MemoryFs
rewritten = (write notes path (note "hi" "") 2 stored).1

new-IsReady : IsReady path new_memory_fs
unfolding is_free location parts_of Paths.dir Paths.base get_entry new_memory_fs
new-IsReady = refl

stored-IsReady : IsReady path stored
stored-IsReady =
    (memory_implements notes).write_ready path (note "hello" "") 0 new_memory_fs new-IsReady

rewritten-IsReady : IsReady path rewritten
rewritten-IsReady =
    (memory_implements notes).write_ready path (note "hi" "") 2 stored stored-IsReady

stored-HasVersions : HasVersions (view stored)
stored-HasVersions =
    (Run-IsNumbered notes (wrote path (note "hello" "") 0 new-IsReady fresh) (omega arith)).0

first_write : (write notes path (note "hi" "") 2 stored).0 ≡ ok (note "hi" "3")
unfolding write write_buffer store_buffer check_write read_buffer read_entry find_dir change_dir
    increment_rev parts_of encode_versionless new_memory_fs get_entry set_entry ensure_parts
    modify_at set_resource_version clear_resource_version format_resource_version format_uint
    Paths.dir Paths.base
first_write = refl

first_rev : (view (write notes path (note "hi" "") 2 stored).1).rev ≡ 3
unfolding view write write_buffer store_buffer check_write read_buffer read_entry find_dir
    change_dir increment_rev parts_of encode_versionless new_memory_fs get_entry set_entry
    ensure_parts modify_at set_resource_version clear_resource_version format_resource_version
    format_uint Paths.dir Paths.base
first_rev = refl

stored_rev : (view stored).rev ≡ 2
unfolding view write write_buffer store_buffer check_write read_buffer read_entry find_dir
    change_dir increment_rev parts_of encode_versionless new_memory_fs get_entry set_entry
    ensure_parts modify_at set_resource_version clear_resource_version format_resource_version
    format_uint Paths.dir Paths.base
stored_rev = refl

second_write_refused_example :
    ((e : Error) × ((write notes path (note "yo" "") 2 rewritten).0 ≡ err e))
    × (view (write notes path (note "yo" "") 2 rewritten).1 ≡ view rewritten)
second_write_refused_example =
    second_write_refused notes path 2 (omega arith) (note "hi" "") (note "yo" "") stored rewritten 0
      (note "hi" "3") stored-HasVersions stored-IsReady first_write
      (omega (arith, first_rev, stored_rev)) fresh (omega (arith, stored_rev)) rewritten-IsReady
