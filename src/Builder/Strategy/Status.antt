-- ===== src/Builder/Strategy/Status.antt =====
-- `Manifest` of pkg/apis/core/v1alpha1/types.go under the two strategies.
use tilt_apiserver.Base.{◌≡◌, refl, true, ◌=~◌, [], ◌∷◌, none, some, if◌then◌else◌}
use tilt_apiserver.Builder.DeepCopy.{
  Reflect, deep_copy_into_method_name, check_signature, call_method, deep_copy,
}
use tilt_apiserver.Builder.Manifest.{
  Manifest, ManifestStatus, get_status, copy_to, deep_copy_into, namespace_scoped, short_names,
  get_singular_name, validate,
}
use tilt_apiserver.Builder.Strategy.{
  Methods, ResourceType, prepare_for_update, prepare_status_update,
}

-- Pointers to manifests for package reflect: one type, and the one method that is asked for.
abbrev pub manifest_reflect : Type 0 → Type 0 → Reflect
manifest_reflect T O = record {
  Object = Manifest T O;
  GoType = Unit;
  type_of = λ m. tt;
  type_text = λ t. "*v1alpha1.Manifest";
  assignable_to = λ t u. true;
  method_by_name = λ m name.
      if name =~ deep_copy_into_method_name
      then some (record { inputs = tt ∷ []; outputs = 0; call = deep_copy_into m })
      else none;
}

-- What `Manifest` tells the strategies of its type.
unfoldable pub manifest_type : {T O : Type 0} → Manifest T O → ResourceType
unfolding namespace_scoped short_names get_singular_name
manifest_type m = record {
  generate_name = none;
  namespace_scoped = some (namespace_scoped m);
  short_names = some (short_names m);
  singular_name = some (get_singular_name m);
  allow_create_on_update = none;
  allow_unconditional_update = none;
}

-- The optional methods of a manifest: it has `Validate` and a status.
abbrev pub manifest_methods : Type 0 → Type 0 → Methods
manifest_methods T O = record {
  Object = Manifest T O;
  Status = ManifestStatus;
  get_status = λ m. some (get_status m);
  copy_to = copy_to;
  prepare_for_create = λ m. none;
  prepare_for_update = λ m old. none;
  validate = λ m. some (validate m);
  validate_update = λ m old. none;
  canonicalize = λ m. none;
  deep_copy = deep_copy (manifest_reflect T O);
}

module _ {T O : Type 0} (new old : Manifest T O) where
  -- An update of a manifest keeps all that was sent but the status, which stays the stored one.
  -- An update of its status keeps all that was stored but the status, which becomes the one sent.
  pub updates_split :
      (prepare_for_update (manifest_methods T O) new old
        ≡ some (record new { status = old.status }))
      × (prepare_status_update (manifest_methods T O) new old
          ≡ some (record old { status = new.status }, record old { status = new.status }))
  unfolding prepare_for_update prepare_status_update get_status copy_to deep_copy_into deep_copy
      check_signature call_method
  updates_split = (refl, refl)
