-- ===== src/Storage/Rest/Write.antt =====
-- `Create` of jsonfile_rest.go, and what the operations that write share.
use tilt_apiserver.Base.{
  ℕ, String, [], ◌∷◌, Option, none, some, Result, ok, err, Error, namespace_not_exists,
  already_exists, conflict, is_version_error, if◌then◌else◌,
}
use tilt_apiserver.Go.Paths
use tilt_apiserver.Storage.Objects.{Machinery}
use tilt_apiserver.Storage.Registry.{Registry}
use tilt_apiserver.Storage.FileSystem.{FileSystem}
use tilt_apiserver.Storage.Rest.{
  FilepathRest, Context, World, added, object_file_name, notify_watchers,
}

-- `rest.ValidateObjectFunc` and `rest.ValidateObjectUpdateFunc`: the error, if the object is
-- refused. The first is also called with nil.
abbrev pub Validate : Machinery → Type 0
Validate m = Option (Option m.Object → Option Error)

abbrev pub ValidateUpdate : Machinery → Type 0
ValidateUpdate m = Option (m.Object → m.Object → Option Error)

abbrev pub run_validation : {A : Type 0} → Option (A → Option Error) → A → Option Error
run_validation none a = none
run_validation (some validate) a = validate a

-- The other users of the file system may run wherever an operation does not hold its mutex: what
-- they do between the last read and the write of attempt `n`, and before the last step.
pub record Others (S : Type 0) : Type 0 where
  pub before_write : ℕ → S → S
  pub before_remove : S → S

module _ (m : Machinery) (g : Registry m) (fs : FileSystem m) (f : FilepathRest) where
  -- `NamespaceFrom` and `EnsureDir` of the namespace's directory.
  unfoldable pub ensure_namespace : Context → fs.State → Option Error × fs.State
  ensure_namespace ctx s =
      if f.namespace_scoped
      then (elim ctx.namespace [
        | none ↦ (some namespace_not_exists, s)
        | some ns ↦
            let (r, s') = fs.ensure_dir (Paths.join (f.obj_root_path ∷ ns ∷ [])) s in
            elim r [ ok u ↦ (none, s') | err e ↦ (some e, s') ]
      ])
      else (none, s)

  -- The error of a failed `Write`, as `Create` and `Delete` return it.
  unfoldable pub write_error : String → Error → Error
  write_error name e = if is_version_error e then conflict name else e

  -- `Create` from the test of the file on.
  unfoldable pub create_file :
      Context → Others fs.State → m.Object → World m fs → Result m.Object × World m fs
  unfolding write_error
  create_file ctx others obj w =
      let name = g.get_name obj in
      let filename = object_file_name f ctx name in
      let (there, s₁) = fs.exists filename w.files in
      if there
      then (err (already_exists name), record w { files = s₁ })
      else (let (r, s₂) = fs.write filename obj 0 (others.before_write 0 s₁) in
          elim r [
            | err e ↦ (err (write_error name e), record w { files = s₂ })
            | ok obj' ↦ (ok obj', notify_watchers m g fs f added obj' (record w { files = s₂ }))
          ])

  unfoldable pub create :
      Context → Others fs.State → m.Object → Validate m → World m fs → Result m.Object × World m fs
  create ctx others obj create_validation w = elim (g.accessor obj) [
    | some e ↦ (err e, w)
    | none ↦ elim (g.before_create (g.fill_object_meta_system_fields obj)) [
      | err e ↦ (err e, w)
      | ok obj' ↦ elim (run_validation create_validation (some obj')) [
        | some e ↦ (err e, w)
        | none ↦
            let (failed, s) = ensure_namespace ctx w.files in
            elim failed [
              | some e ↦ (err e, record w { files = s })
              | none ↦ create_file ctx others obj' (record w { files = s })
            ]
      ]
    ]
  ]
