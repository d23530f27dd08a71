-- ===== src/Storage/Rest/TryUpdate.antt =====
-- The function that `Update` of jsonfile_rest.go hands to `guaranteedUpdate`.
use tilt_apiserver.Base.{
  ℕ, Bool, true, false, String, List, [], ◌∷◌, Option, none, some, Result, ok, err, Error,
  not_found, conflict, ◌==◌, not, ◌&&◌, if◌then◌else◌,
}
use tilt_apiserver.Storage.Objects.{Machinery}
use tilt_apiserver.Storage.Version.{get_resource_version}
use tilt_apiserver.Storage.Registry.{Registry}
use tilt_apiserver.Storage.FileSystem.{FileSystem}
use tilt_apiserver.Storage.Rest.{FilepathRest, Context}
use tilt_apiserver.Storage.Rest.Write.{Validate, ValidateUpdate, run_validation, ensure_namespace}

-- What the flags `isCreate` and `isDelete` of `Update` say after an attempt.
pub data Outcome : Type 0 where
  creates removes changes : Outcome

module _ (m : Machinery) (g : Registry m) (fs : FileSystem m) (f : FilepathRest) where
  -- `!IsZero()` of a deletion timestamp.
  abbrev pub is_set : Option ℕ → Bool
  is_set none = false
  is_set (some t) = not (t == 0)

  abbrev pub is_none : Option m.Object → Bool
  is_none none = true
  is_none (some obj) = false

  abbrev pub is_nil : List String → Bool
  is_nil [] = true
  is_nil (x ∷ xs) = false

  -- The end of the function that `Update` hands to `guaranteedUpdate`: what it does with an output
  -- whose version agrees. The validation of a creation is called with the input, which is nil.
  unfoldable pub validate_output :
      Validate m → ValidateUpdate m → Option m.Object → m.Object → Result (m.Object × Outcome)
  validate_output create_validation update_validation none output =
      elim (run_validation create_validation none) [ some e ↦ err e | none ↦ ok (output, creates) ]
  validate_output create_validation update_validation (some input) output =
      let refused : Option Error = elim update_validation [
        | none ↦ none
        | some validate ↦ validate output input
      ] in
      elim refused [
        | some e ↦ err e
        | none ↦ elim (g.accessor output) [
          | some e ↦ err e
          | none ↦
              if is_nil (g.get_finalizers output) && is_set (g.get_deletion_timestamp output)
              then ok (output, removes)
              else ok (output, changes)
        ]
      ]

  unfoldable pub run_before_update :
      m.Object → Option m.Object → Result (m.Object × Option m.Object)
  run_before_update output none = elim (g.before_update_of_nil output) [
    | err e ↦ err e
    | ok output' ↦ ok (output', none)
  ]
  run_before_update output (some input) = elim (g.before_update output input) [
    | err e ↦ err e
    | ok (output', input') ↦ ok (output', some input')
  ]

  -- The version test, which stands before `rest.BeforeUpdate`.
  unfoldable pub check_output :
      String
      → Validate m
      → ValidateUpdate m
      → ℕ
      → Option m.Object
      → m.Object
      → Result (m.Object × Outcome)
  unfolding validate_output run_before_update
  check_output name create_validation update_validation input_version input output =
      elim (get_resource_version m (some output)) [
        | err e ↦ err e
        | ok updated_version ↦
            if input_version == updated_version
            then (elim (run_before_update output input) [
              | err e ↦ err e
              | ok (output', input') ↦
                  validate_output create_validation update_validation input' output'
            ])
            else err (conflict name)
      ]

  -- `objInfo.UpdatedObject(ctx, input)`, the closure that `Update` hands to `guaranteedUpdate`.
  unfoldable pub try_update :
      Context
      → String
      → (Option m.Object → Result m.Object)
      → Validate m
      → ValidateUpdate m
      → Bool
      → Option m.Object
      → fs.State
      → Result (m.Object × Outcome) × fs.State
  unfolding check_output
  try_update ctx name updated_object create_validation update_validation force_allow_create input
        s =
      if is_none input && not force_allow_create
      then (err (not_found name), s)
      else (elim (get_resource_version m input) [
        | err e ↦ (err e, s)
        | ok input_version ↦
            let (failed, s') = ensure_namespace m g fs f ctx s in
            elim failed [
              | some e ↦ (err e, s')
              | none ↦ (
                elim (updated_object input) [
                  | err e ↦ err e
                  | ok output ↦
                      check_output name create_validation update_validation input_version input
                        output
                ],
                s',
              )
            ]
      ])
