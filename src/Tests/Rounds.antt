-- ===== src/Tests/Rounds.antt =====
-- An update that meets another user's write, and a run of the methods of `MemoryFS`.
use tilt_apiserver.Base.{ℕ, zero, suc, ◌≡◌, ◌≤◌, refl, String, some, Error, err, arith}
use tilt_apiserver.Storage.Objects.{IsOwn, HasOwnErrors}
use tilt_apiserver.Storage.Contract.Memory.{memory_implements}
use tilt_apiserver.Storage.MemoryFs.Versions.{
  Run, fresh, wrote, removed, IsNumbered, Run-IsNumbered,
}
use tilt_apiserver.Storage.MemoryFs.{MemoryFs, new_memory_fs, memory_fs, write, remove}
use tilt_apiserver.Storage.MemoryFs.Files.{location, view, IsReady}
use tilt_apiserver.Storage.Rest.{object_file_name}
use tilt_apiserver.Storage.Rest.Write.{Others}
use tilt_apiserver.Storage.Rest.Update.{guaranteed_update}
use tilt_apiserver.Storage.Rest.Update.Attempts.{IsReturned}
use tilt_apiserver.Storage.Rest.Update.Outdated.{spec_write-IsSmall}
use tilt_apiserver.Storage.Rest.Update.Termination.{IsFine, guaranteed_update-IsReturned}
use tilt_apiserver.Tests.Machine.{Note, note, notes, notes_lawful, note_registry, rest, context}
use tilt_apiserver.Tests.Storage.{one_file, path-IsReady, file-IsReady, file_there}
use tilt_apiserver.Tests.Update.{edit}

encode_error : (o : Note) (e : Error) → notes.encode o ≡ err e → IsOwn e
encode_error o e h = (ground (arith, h), ground (arith, h), ground (arith, h))

accessor_error : (o : Note) (e : Error) → notes.common_accessor o ≡ some e → IsOwn e
accessor_error o e h = absurd (ground (arith, h))

decode_error : (content : String) (e : Error) → notes.decode content ≡ err e → IsOwn e
decode_error content e h = absurd (ground (arith, h))

abbrev own : HasOwnErrors notes
own = record { accessor_own = accessor_error; encode_own = encode_error; decode_own = decode_error }

abbrev web : String
web = object_file_name rest context "web"

-- Another user writes the note before the first write of the update.
unfoldable rival_write : ℕ → MemoryFs → MemoryFs
rival_write zero s = (write notes web (note "hi" "") 2 s).1
rival_write (suc n) s = s

abbrev rival : Others MemoryFs
rival = record { before_write = rival_write; before_remove = λ s. s }

abbrev IsFit : MemoryFs → Type 0
IsFit = IsFine notes (memory_fs notes) (memory_implements notes) web

rival-IsFit : (n : ℕ) (s : MemoryFs) → IsFit s → IsFit (rival_write n s)
unfolding rival_write
rival-IsFit zero s (h, b) =
    let c = memory_implements notes in
    (
      c.write_ready web (note "hi" "") 2 s h,
      rw (c.write_view web (note "hi" "") 2 s h)
          (spec_write-IsSmall notes (location web) (note "hi" "") 2 (view s) b),
    )
rival-IsFit (suc n) s h = h

one_file-IsFit : IsFit one_file
one_file-IsFit = (file-IsReady, λ v e. ground (arith, e, file_there))

alone : (n : ℕ) (t : MemoryFs) → 1 ≤ n → rival_write n t ≡ t
unfolding rival_write
alone zero t h = absurd (omega arith)
alone (suc n) t h = refl

guaranteed_update-IsReturned_example :
    IsReturned notes note_registry
      (memory_fs notes)
      rest
      context
      "web"
      rival
      edit
      0
      one_file
      1
      (guaranteed_update notes note_registry
        (memory_fs notes)
        rest
        context
        "web"
        rival
        edit
        one_file).0
guaranteed_update-IsReturned_example =
    guaranteed_update-IsReturned notes note_registry (memory_fs notes) rest
      (memory_implements notes) notes_lawful own context "web" rival edit rival-IsFit
      (λ input s h. h) (λ input s h. refl) 1 one_file (omega arith) alone one_file-IsFit

wrote-IsReady : IsReady web (write notes web (note "hello" "") 0 new_memory_fs).1
wrote-IsReady =
    (memory_implements notes).write_ready web (note "hello" "") 0 new_memory_fs path-IsReady

-- The run of a write and a removal.
short-Run : Run notes 1 (remove web (write notes web (note "hello" "") 0 new_memory_fs).1).1
short-Run = removed web wrote-IsReady (wrote web (note "hello" "") 0 path-IsReady fresh)

Run-IsNumbered_example :
    IsNumbered notes 1 (view (remove web (write notes web (note "hello" "") 0 new_memory_fs).1).1)
Run-IsNumbered_example = Run-IsNumbered notes short-Run (omega arith)
