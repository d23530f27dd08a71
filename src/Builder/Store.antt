-- ===== src/Builder/Store.antt =====
-- pkg/server/builder/rest/rest.go: the stores of the generic registry that are made of a resource.
use tilt_apiserver.Base.{String, Option, none, some, Result, ok, err, Error}
use tilt_apiserver.Builder.Register.{GroupVersionResource, GroupResource, group_resource}

-- A resource object, as far as a store is made of it: its name, and the functions `New` and
-- `NewList`, of an unknown type.
pub record StoreObject (F : Type 0) : Type 0 where
  pub gvr : GroupVersionResource
  pub new : F
  pub new_list : F

-- The strategies: the default one of an object, that of its status subresource over another, and
-- those that a caller gives.
pub data StoreStrategy (F C : Type 0) : Type 0 where
  default : StoreObject F → StoreStrategy F C
  status : StoreStrategy F C → StoreStrategy F C
  given : C → StoreStrategy F C

-- `genericregistry.Store`, as far as `newStore` sets it. `predicate_func` is the `Match` of a strategy.
pub record Store (F C : Type 0) : Type 0 where
  pub new_func : F
  pub new_list_func : F
  pub predicate_func : StoreStrategy F C
  pub default_qualified_resource : GroupResource
  pub table_convertor : StoreStrategy F C
  pub create_strategy : StoreStrategy F C
  pub update_strategy : StoreStrategy F C
  pub delete_strategy : StoreStrategy F C

-- `generic.StoreOptions`: the getter of REST options, and the attributes of an object.
pub record StoreOptions (G A : Type 0) : Type 0 where
  pub rest_options : G
  pub attr_func : A

-- `GetAttrs`: the labels and fields of an object with metadata, which `as_resource` gives, if it is
-- one of the builder's.
unfoldable pub get_attrs :
    {O M L F : Type 0} → (O → Option M) → (M → L) → (M → F) → (O → Error) → O → Result (L × F)
get_attrs as_resource labels_of fields_of no_metadata obj = elim (as_resource obj) [
  | none ↦ err (no_metadata obj)
  | some meta ↦ ok (labels_of meta, fields_of meta)
]

-- `StoreFn`
abbrev pub StoreFn : (F C G A : Type 0) → Type 0
StoreFn F C G A = Store F C → StoreOptions G A → Store F C × StoreOptions G A

-- `attrs` is `GetAttrs`, and `complete` is `CompleteWithOptions` of the store.
module _ {F C G A : Type 0} (attrs : A)
    (complete : StoreOptions G A → Store F C → Result (Store F C)) where
  unfoldable pub new_store :
      F
      → F
      → GroupVersionResource
      → StoreStrategy F C
      → G
      → Option (StoreFn F C G A)
      → Result (Store F C)
  new_store single list gvr s opts_getter fn =
      let store : Store F C = record {
        new_func = single;
        new_list_func = list;
        predicate_func = s;
        default_qualified_resource = group_resource gvr;
        table_convertor = s;
        create_strategy = s;
        update_strategy = s;
        delete_strategy = s;
      } in
      let options : StoreOptions G A = record { rest_options = opts_getter; attr_func = attrs } in
      elim fn [
        | none ↦ complete options store
        | some f ↦ let (store', options') = f store options in complete options' store'
      ]

  -- `New`
  unfoldable pub new : StoreObject F → G → Result (Store F C)
  unfolding new_store
  new obj opts_getter = new_store obj.new obj.new_list obj.gvr (default obj) opts_getter none

  -- `NewStatus`: the parent, the path, the request, and the handler.
  unfoldable pub new_status :
      StoreObject F → StoreObject F × String × StoreObject F × (G → Result (Store F C))
  unfolding new_store
  new_status obj = (
    obj,
    "status",
    obj,
    λ opts_getter. new_store obj.new obj.new_list obj.gvr (status (default obj)) opts_getter none,
  )

  unfoldable pub new_with_strategy : StoreObject F → StoreStrategy F C → G → Result (Store F C)
  unfolding new_store
  new_with_strategy obj s opts_getter = new_store obj.new obj.new_list obj.gvr s opts_getter none

  unfoldable pub new_status_with_strategy :
      StoreObject F → StoreStrategy F C → G → Result (Store F C)
  unfolding new_store
  new_status_with_strategy obj s opts_getter =
      new_store obj.new obj.new_list obj.gvr (status s) opts_getter none

  unfoldable pub new_with_fn : StoreObject F → StoreFn F C G A → G → Result (Store F C)
  unfolding new_store
  new_with_fn obj fn opts_getter =
      new_store obj.new obj.new_list obj.gvr (default obj) opts_getter (some fn)

  unfoldable pub new_status_with_fn : StoreObject F → StoreFn F C G A → G → Result (Store F C)
  unfolding new_store
  new_status_with_fn obj fn opts_getter =
      new_store obj.new obj.new_list obj.gvr (status (default obj)) opts_getter (some fn)
