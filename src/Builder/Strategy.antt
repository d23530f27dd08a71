-- ===== src/Builder/Strategy.antt =====
-- pkg/server/builder/rest/strategy.go and status.go: what is done with an object before it is
-- stored. A resource's optional interfaces are optional fields; a type assertion that would panic
-- is `none`.
pub mod Status
use tilt_apiserver.Base.{
  ◌≡◌, Bool, true, false, String, List, [], ◌∷◌, Option, none, some, Error, Result, ok, err,
}

-- The interfaces that a strategy asks the resource type for.
pub record ResourceType : Type 0 where
  pub generate_name : Option (String → String)
  pub namespace_scoped : Option Bool
  pub short_names : Option (List String)
  pub singular_name : Option String
  pub allow_create_on_update : Option Bool
  pub allow_unconditional_update : Option Bool

-- The interfaces that a strategy asks an object for, and its status. `copy_to` writes a status
-- into a parent, and `deep_copy` is the object's `DeepCopyInto`.
pub record Methods : Type 1 where
  pub Object : Type 0
  pub Status : Type 0
  -- `GetStatus`, for a type that has the status subresource
  pub get_status : Object → Option Status
  pub copy_to : Status → Object → Object
  pub prepare_for_create : Object → Option Object
  pub prepare_for_update : Object → Object → Option Object
  pub validate : Object → Option (List Error)
  pub validate_update : Object → Object → Option (List Error)
  pub canonicalize : Object → Option Object
  -- `util.DeepCopy(src, dst)`: the new value of `dst`, an error that is only reported, or a panic
  pub deep_copy : Object → Object → Option (Result Object)

-- `DefaultStrategy`, whose object may be nil. `simple_name` is the generator of the registry.
pub record DefaultStrategy : Type 0 where
  pub object : Option ResourceType
  pub simple_name : String → String

-- The value that an optional interface gives, or the default.
abbrev ask : {A : Type 0} → Option ResourceType → (ResourceType → Option A) → A → A
ask none method default = default
ask (some t) method default = elim (method t) [ none ↦ default | some a ↦ a ]

unfoldable pub generate_name : DefaultStrategy → String → String
generate_name d base = ask d.object (λ t. t.generate_name) d.simple_name base

unfoldable pub namespace_scoped : DefaultStrategy → Bool
namespace_scoped d = ask d.object (λ t. t.namespace_scoped) true

unfoldable pub short_names : DefaultStrategy → List String
short_names d = ask d.object (λ t. t.short_names) []

unfoldable pub get_singular_name : DefaultStrategy → String
get_singular_name d = ask d.object (λ t. t.singular_name) ""

unfoldable pub allow_create_on_update : DefaultStrategy → Bool
allow_create_on_update d = ask d.object (λ t. t.allow_create_on_update) false

unfoldable pub allow_unconditional_update : DefaultStrategy → Bool
allow_unconditional_update d = ask d.object (λ t. t.allow_unconditional_update) false

module _ (k : Methods) where
  unfoldable pub prepare_for_create : k.Object → k.Object
  prepare_for_create obj = elim (k.prepare_for_create obj) [ none ↦ obj | some obj' ↦ obj' ]

  -- The object's own `PrepareForUpdate`, if it has one.
  unfoldable pub prepare_object : k.Object → k.Object → k.Object
  prepare_object obj old = elim (k.prepare_for_update obj old) [ none ↦ obj | some obj' ↦ obj' ]

  -- `PrepareForUpdate` of `DefaultStrategy`: the status of the old object is put back. `none` is
  -- the panic of the type assertion on the old object.
  unfoldable pub prepare_for_update : k.Object → k.Object → Option k.Object
  unfolding prepare_object
  prepare_for_update obj old = elim (k.get_status obj) [
    | none ↦ some (prepare_object obj old)
    | some status ↦ elim (k.get_status old) [
      | none ↦ none
      | some old_status ↦ some (prepare_object (k.copy_to old_status obj) old)
    ]
  ]

  unfoldable pub validate : k.Object → List Error
  validate obj = elim (k.validate obj) [ none ↦ [] | some errors ↦ errors ]

  unfoldable pub validate_update : k.Object → k.Object → List Error
  validate_update obj old = elim (k.validate_update obj old) [ none ↦ [] | some errors ↦ errors ]

  unfoldable pub canonicalize : k.Object → k.Object
  canonicalize obj = elim (k.canonicalize obj) [ none ↦ obj | some obj' ↦ obj' ]

  -- `PrepareForUpdate` of `StatusSubResourceStrategy`: the new object and the new old one. Only the
  -- status is kept of what was sent: the old object, with that status, is copied over the new one.
  unfoldable pub prepare_status_update : k.Object → k.Object → Option (k.Object × k.Object)
  prepare_status_update obj old = elim (k.get_status obj) [
    | none ↦ none
    | some status ↦ elim (k.get_status old) [
      | none ↦ none
      | some old_status ↦
          let old' = k.copy_to status old in
          elim (k.deep_copy old' obj) [
            | none ↦ none
            | some (err e) ↦ some (obj, old')
            | some (ok obj') ↦ some (obj', old')
          ]
    ]
  ]

-- `Match`: the predicate keeps the selectors that it is given, with the attributes of `GetAttrs`.
unfoldable pub match_selectors :
    {L F A : Type 0} → A → L → F → record { label : L; field : F; get_attrs : A }
match_selectors attrs label field = record { label = label; field = field; get_attrs = attrs }

-- `ConvertToTable`: the object's own conversion, or the one of the strategy.
unfoldable pub convert_to_table :
    {O X T : Type 0} → (O → Option (X → Result T)) → (O → X → Result T) → O → X → Result T
convert_to_table own fallback obj options = elim (own obj) [
  | some convert ↦ convert options
  | none ↦ fallback obj options
]

-- `WarningsOnCreate` and `WarningsOnUpdate`
unfoldable pub warnings_on_create : {O : Type 0} → O → List String
warnings_on_create obj = []

unfoldable pub warnings_on_update : {O : Type 0} → O → O → List String
warnings_on_update old obj = []
