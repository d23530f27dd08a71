-- ===== src/Storage/Registry.antt =====
-- What the REST storage uses of the Kubernetes registry packages and of its strategy. The packages
-- are not modelled: these are their functions on objects. A mutated object is returned.
use tilt_apiserver.Base.{ℕ, Bool, String, List, Option, Result, Error}
use tilt_apiserver.Storage.Objects.{Machinery}

pub record Registry (m : Machinery) : Type 1 where
  -- `meta.Accessor(obj)`: the error, if the object has no metadata
  pub accessor : m.Object → Option Error
  pub get_name : m.Object → String
  pub get_finalizers : m.Object → List String
  -- A time is a number, and the zero time is 0.
  pub get_deletion_timestamp : m.Object → Option ℕ
  pub set_deletion_timestamp : m.Object → ℕ → m.Object
  pub set_deletion_grace_period_seconds : m.Object → ℕ → m.Object
  -- `rest.FillObjectMetaSystemFields`
  pub fill_object_meta_system_fields : m.Object → m.Object
  -- `rest.BeforeCreate(f.strategy, ctx, obj)`
  pub before_create : m.Object → Result m.Object
  -- `rest.BeforeUpdate(f.strategy, ctx, obj, old)`, which may change both, and with a nil `old`
  pub before_update : m.Object → m.Object → Result (m.Object × m.Object)
  pub before_update_of_nil : m.Object → Result m.Object
  -- `labels.Selector`, `fields.Selector` and their `Everything()`
  pub LabelSelector : Type 0
  pub FieldSelector : Type 0
  pub everything_label : LabelSelector
  pub everything_field : FieldSelector
  -- `SelectionPredicate.Matches` with `storage.DefaultClusterScopedAttr`
  pub matches : LabelSelector → FieldSelector → m.Object → Result Bool
