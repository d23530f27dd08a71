-- ===== src/Storage/Spec.antt =====
-- What the storage promises: files with versions under locations, and one revision. It is the
-- specification of `MemoryFS`, and knows no directories.
pub mod Versions
pub mod Newer
use tilt_apiserver.Base.{
  ℕ, ◌+◌, ◌%◌, ◌^◌, Bool, true, false, String, ◌=~◌, List, Option, none, some, Result, ok, err,
  not_exist, version_error, ◌==◌, ◌>>=◌, if◌then◌else◌,
}
use tilt_apiserver.Storage.Objects.{Machinery}
use tilt_apiserver.Storage.Version.{set_resource_version, clear_resource_version}
use tilt_apiserver.Storage.Tree.{VersionedData}
use tilt_apiserver.Storage.Tree.Modify.{same}

pub record Store : Type 0 where
  pub files : List String → Option VersionedData
  pub rev : ℕ

abbrev pub update :
    List String
    → Option VersionedData
    → (List String → Option VersionedData)
    → List String
    → Option VersionedData
update loc w files q = if same loc q then w else files q

-- The store with another file at a location, and its revision.
unfoldable pub with_file : List String → Option VersionedData → ℕ → Store → Store
with_file loc w rev s = record { files = update loc w s.files; rev = rev }

abbrev pub found : Option VersionedData → Result VersionedData
found none = err not_exist
found (some v) = ok v

unfoldable pub spec_read : List String → Store → Result VersionedData
spec_read loc s = found (s.files loc)

unfoldable pub spec_exists : List String → Store → Bool
spec_exists loc s = elim (s.files loc) [ none ↦ false | some v ↦ true ]

unfoldable pub spec_remove : List String → Store → Result (Unit {0}) × Store
spec_remove loc s = elim (s.files loc) [
  | none ↦ (err not_exist, s)
  | some v ↦ (ok tt, with_file loc none s.rev s)
]

module _ (m : Machinery) where
  -- A write that is accepted takes the next revision for its version.
  unfoldable pub commit : List String → m.Object → String → Store → Result m.Object × Store
  commit loc obj buf s =
      let rev : ℕ = (s.rev + 1) % 2 ^ 64 in
      elim (set_resource_version m obj rev) [
        | err e ↦ (err e, record s { rev = rev })
        | ok obj' ↦ (ok obj', with_file loc (some (record { version = rev; content = buf })) rev s)
      ]

  -- A new file is written with version 0. A file that is there is written with its own version,
  -- and only if its content changes.
  unfoldable pub spec_write_bytes :
      List String → m.Object → String → ℕ → Store → Result m.Object × Store
  unfolding commit
  spec_write_bytes loc obj buf version s = elim (s.files loc) [
    | none ↦ if version == 0 then commit loc obj buf s else (err not_exist, s)
    | some v ↦
        if v.version == version
        then (if v.content =~ buf then (ok obj, s) else commit loc obj buf s)
        else (err version_error, s)
  ]

  unfoldable pub spec_write : List String → m.Object → ℕ → Store → Result m.Object × Store
  spec_write loc obj version s = elim (clear_resource_version m obj >>= m.encode) [
    | err e ↦ (err e, s)
    | ok buf ↦ spec_write_bytes loc obj buf version s
  ]
