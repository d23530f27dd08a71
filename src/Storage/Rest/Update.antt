-- ===== src/Storage/Rest/Update.antt =====
-- `Update` and `guaranteedUpdate` of jsonfile_rest.go.
pub mod Attempts
pub mod NoLostUpdate
pub mod Undisturbed
pub mod Conflict
pub mod Outdated
pub mod Termination
use tilt_apiserver.Base.{
  ◌≡◌, refl, ◌⊎◌, inl, inr, ℕ, zero, suc, ◌+◌, Bool, true, false, String, List, [], ◌∷◌, Option,
  none, some, Result, ok, err, Error, namespace_not_exists, not_found, already_exists, conflict,
  internal, is_not_exist, is_version_error, is_not_found, ◌==◌, not, ◌&&◌, if◌then◌else◌,
}
use tilt_apiserver.Go.Paths
use tilt_apiserver.Storage.Objects.{Machinery}
use tilt_apiserver.Storage.Version.{get_resource_version}
use tilt_apiserver.Storage.Registry.{Registry}
use tilt_apiserver.Storage.FileSystem.{FileSystem}
use tilt_apiserver.Storage.Rest.{
  FilepathRest, Context, World, added, modified, deleted, object_file_name, notify_watchers, get,
}
use tilt_apiserver.Storage.Rest.Write.{
  Validate, ValidateUpdate, run_validation, Others, ensure_namespace,
}
use tilt_apiserver.Storage.Rest.TryUpdate.{Outcome, creates, removes, changes, try_update}

-- How a round of the loop ends.
pub data Attempt (m : Machinery) : Type 0 where
  returned : Result (m.Object × Outcome) → Attempt m
  conflicted : Attempt m

pub Attempt-cases :
    {m : Machinery} (a : Attempt m)
    → ((r : Result (m.Object × Outcome)) × (a ≡ returned r)) ⊎ (a ≡ conflicted)
Attempt-cases (returned r) = inl (r, refl)
Attempt-cases conflicted = inr refl

module _ (m : Machinery) (g : Registry m) (fs : FileSystem m) (f : FilepathRest) where
  -- The input of an attempt: a NotFound of `Get` is not terminal.
  unfoldable pub attempt_input : Result m.Object → Result (Option m.Object)
  attempt_input (ok obj) = ok (some obj)
  attempt_input (err e) = if is_not_found e then ok none else err e

  -- One round of the loop of `guaranteedUpdate`: the function returns, or goes on.
  unfoldable pub attempt_update :
      Context
      → String
      → Others fs.State
      → (Option m.Object → fs.State → Result (m.Object × Outcome) × fs.State)
      → ℕ
      → fs.State
      → Attempt m × fs.State
  attempt_update ctx name others update i s = elim (ctx.ctx_err i) [
    | some e ↦ (returned (err e), s)
    | none ↦
        let (r, s₁) = get m g fs f ctx name s in
        elim (attempt_input r) [
          | err e ↦ (returned (err e), s₁)
          | ok input ↦ elim (get_resource_version m input) [
            | err e ↦ (returned (err e), s₁)
            | ok storage_version ↦
                let (tried, s₂) = update input s₁ in
                elim tried [
                  | err e ↦ (returned (err e), s₂)
                  | ok (out, outcome) ↦
                      let filename = object_file_name f ctx name in
                      let (written, s₃) =
                        fs.write filename out storage_version (others.before_write i s₂) in
                      elim written [
                        | ok out' ↦ (returned (ok (out', outcome)), s₃)
                        | err e ↦ (if is_version_error e then conflicted else returned (err e), s₃)
                      ]
                ]
          ]
        ]
  ]

  -- The loop, over the rounds left and the number of this one.
  unfoldable pub update_loop :
      Context
      → String
      → Others fs.State
      → (Option m.Object → fs.State → Result (m.Object × Outcome) × fs.State)
      → ℕ
      → ℕ
      → fs.State
      → Result (m.Object × Outcome) × fs.State
  update_loop ctx name others update zero i s = (err (internal "failed to persist to storage"), s)
  update_loop ctx name others update (suc left) i s =
      let (a, s') = attempt_update ctx name others update i s in
      elim a [
        | returned r ↦ (r, s')
        | conflicted ↦ update_loop ctx name others update left (i + 1) s'
      ]

  abbrev pub max_attempts : ℕ
  max_attempts = 100

  unfoldable pub guaranteed_update :
      Context
      → String
      → Others fs.State
      → (Option m.Object → fs.State → Result (m.Object × Outcome) × fs.State)
      → fs.State
      → Result (m.Object × Outcome) × fs.State
  guaranteed_update ctx name others update s = update_loop ctx name others update max_attempts 0 s

  -- The object, and whether it was created.
  abbrev pub Updated : Type 0
  Updated = record { object : m.Object; created : Bool }

  -- What `Update` does after `guaranteedUpdate`: the events, and the removal of a drained object.
  unfoldable pub finish_update :
      Context
      → String
      → Others fs.State
      → m.Object
      → Outcome
      → World m fs
      → Result Updated × World m fs
  finish_update ctx name others obj creates w =
      (ok (record { object = obj; created = true }), notify_watchers m g fs f added obj w)
  finish_update ctx name others obj changes w =
      (ok (record { object = obj; created = false }), notify_watchers m g fs f modified obj w)
  finish_update ctx name others obj removes w =
      let (r, s) = fs.remove (object_file_name f ctx name) (others.before_remove w.files) in
      elim r [
        | err e ↦ (err (if is_not_exist e then not_found name else e), record w { files = s })
        | ok u ↦ (
          ok (record { object = obj; created = false }),
          notify_watchers m g fs f deleted obj (record w { files = s }),
        )
      ]

  unfoldable pub update :
      Context
      → String
      → Others fs.State
      → (Option m.Object → Result m.Object)
      → Validate m
      → ValidateUpdate m
      → Bool
      → World m fs
      → Result Updated × World m fs
  unfolding finish_update
  update ctx name others updated_object create_validation update_validation force_allow_create w =
      let attempt =
        try_update m g fs f ctx name updated_object create_validation update_validation
          force_allow_create in
      let (r, s) = guaranteed_update ctx name others attempt w.files in
      elim r [
        | err e ↦ (err (if is_not_exist e then not_found name else e), record w { files = s })
        | ok (obj, outcome) ↦ finish_update ctx name others obj outcome (record w { files = s })
      ]
