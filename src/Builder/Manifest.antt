-- ===== src/Builder/Manifest.antt =====
-- `Manifest` and `ManifestList` of pkg/apis/core/v1alpha1/types.go, and their copies of
-- zz_generated.deepcopy.go. A slice points to an array of the heap, so a copy can share it.
pub mod Copies
use mathlib.Core.List.{replicate}
use tilt_apiserver.Base.{
  ℕ, zero, suc, Bool, true, false, String, List, [], ◌∷◌, ◌++◌, Option, none, some, Error,
}
use tilt_apiserver.Builder.Register.{GroupVersionResource}

pub record ManifestSpec : Type 0 where
  pub message : String

pub record ManifestStatus : Type 0 where
  pub message : String

-- `TypeMeta`, `ObjectMeta` and `ListMeta` are types of the Kubernetes packages. `ObjectMeta` stands
-- for its value, as `ObjectMeta.DeepCopyInto` copies it.
pub record Manifest (TypeMeta ObjectMeta : Type 0) : Type 0 where
  pub type_meta : TypeMeta
  pub object_meta : ObjectMeta
  pub spec : ManifestSpec
  pub status : ManifestStatus

-- `Items` is nil, or the address of its array, all of which is the slice.
pub record ManifestList (TypeMeta ListMeta : Type 0) : Type 0 where
  pub type_meta : TypeMeta
  pub list_meta : ListMeta
  pub items : Option ℕ

module _ {T O : Type 0} where
  unfoldable pub get_object_meta : Manifest T O → O
  get_object_meta m = m.object_meta

  unfoldable pub namespace_scoped : Manifest T O → Bool
  namespace_scoped m = false

  unfoldable pub short_names : Manifest T O → List String
  short_names m = "m" ∷ []

  unfoldable pub get_singular_name : Manifest T O → String
  get_singular_name m = "manifest"

  unfoldable pub get_group_version_resource : Manifest T O → GroupVersionResource
  get_group_version_resource m = record {
    group = "core.tilt.dev";
    version = "v1alpha1";
    resource = "manifests";
  }

  unfoldable pub is_storage_version : Manifest T O → Bool
  is_storage_version m = true

  unfoldable pub validate : Manifest T O → List Error
  validate m = []

  unfoldable pub get_status : Manifest T O → ManifestStatus
  get_status m = m.status

  -- `CopyTo`
  unfoldable pub copy_to : ManifestStatus → Manifest T O → Manifest T O
  copy_to s parent = record parent { status = s }

  -- `DeepCopyInto`: every field of the destination is written.
  unfoldable pub deep_copy_into : Manifest T O → Manifest T O → Manifest T O
  deep_copy_into m out = record {
    type_meta = m.type_meta;
    object_meta = m.object_meta;
    spec = m.spec;
    status = m.status;
  }

-- `GetListMeta`
unfoldable pub get_list_meta : {T L : Type 0} → ManifestList T L → L
get_list_meta l = l.list_meta

-- The arrays of manifests, by address: address `a` is the a-th of the list.
abbrev pub Heap : Type 0 → Type 0 → Type 0
Heap T O = List (List (Manifest T O))

-- The empty manifest, list and metadata that Go makes.
pub record Zeros (T O L : Type 0) : Type 0 where
  pub type_meta : T
  pub object_meta : O
  pub list_meta : L

module _ {T O L : Type 0} (z : Zeros T O L) where
  -- `New`, and `new(Manifest)`
  unfoldable pub new_manifest : Manifest T O
  new_manifest = record {
    type_meta = z.type_meta;
    object_meta = z.object_meta;
    spec = record { message = "" };
    status = record { message = "" };
  }

  -- `NewList`, and `new(ManifestList)`
  unfoldable pub new_list : ManifestList T L
  new_list = record { type_meta = z.type_meta; list_meta = z.list_meta; items = none }

  -- The array at an address.
  unfoldable pub load : ℕ → Heap T O → List (Manifest T O)
  load a [] = []
  load zero (array ∷ heap) = array
  load (suc a) (array ∷ heap) = load a heap

  unfoldable pub store : ℕ → List (Manifest T O) → Heap T O → Heap T O
  store a new [] = []
  store zero new (array ∷ heap) = new ∷ heap
  store (suc a) new (array ∷ heap) = array ∷ store a new heap

  -- `make([]Manifest, n)`: the address of a new array, with the heap that has it.
  unfoldable pub make_array : List (Manifest T O) → Heap T O → ℕ × Heap T O
  make_array fresh [] = (zero, fresh ∷ [])
  make_array fresh (array ∷ heap) = let (a, heap') = make_array fresh heap in (suc a, array ∷ heap')

  unfoldable pub zero_items : List (Manifest T O) → List (Manifest T O)
  unfolding new_manifest
  zero_items [] = []
  zero_items (m ∷ items) = new_manifest ∷ zero_items items

  -- The loop over the items, of the array that is read and the array that is written.
  unfoldable pub copy_items : List (Manifest T O) → List (Manifest T O) → List (Manifest T O)
  unfolding deep_copy_into
  copy_items [] out = out
  copy_items (m ∷ items) [] = []
  copy_items (m ∷ items) (o ∷ out) = deep_copy_into m o ∷ copy_items items out

  -- `DeepCopyInto` of a list: `*out = *in` shares the array, until a new one is made.
  unfoldable pub deep_copy_list_into :
      ManifestList T L → ManifestList T L → Heap T O → ManifestList T L × Heap T O
  unfolding load store make_array zero_items copy_items
  deep_copy_list_into l out heap =
      let shared = l in
      elim l.items [
        | none ↦ (shared, heap)
        | some a ↦
            let source = load a heap in
            let (b, heap') = make_array (zero_items source) heap in
            (record shared { items = some b }, store b (copy_items source (load b heap')) heap')
      ]

  -- `DeepCopy` of a pointer, which may be nil.
  unfoldable pub deep_copy : Option (Manifest T O) → Option (Manifest T O)
  unfolding deep_copy_into new_manifest
  deep_copy none = none
  deep_copy (some m) = some (deep_copy_into m new_manifest)

  unfoldable pub deep_copy_list :
      Option (ManifestList T L) → Heap T O → Option (ManifestList T L) × Heap T O
  unfolding deep_copy_list_into new_list
  deep_copy_list none heap = (none, heap)
  deep_copy_list (some l) heap =
      let (out, heap') = deep_copy_list_into l new_list heap in (some out, heap')

  -- `DeepCopyObject`: an interface is nil, or holds a pointer, which may be nil.
  unfoldable pub deep_copy_object : Option (Manifest T O) → Option (Option (Manifest T O))
  unfolding deep_copy
  deep_copy_object m = elim (deep_copy m) [ none ↦ none | some c ↦ some (some c) ]

  unfoldable pub deep_copy_list_object :
      Option (ManifestList T L) → Heap T O → Option (Option (ManifestList T L)) × Heap T O
  unfolding deep_copy_list
  deep_copy_list_object l heap =
      let (out, heap') = deep_copy_list l heap in
      (elim out [ none ↦ none | some c ↦ some (some c) ], heap')

-- `DeepCopy` of `ManifestSpec` and `ManifestStatus`, with `*out = *in` of their `DeepCopyInto`.
unfoldable pub deep_copy_spec_into : ManifestSpec → ManifestSpec → ManifestSpec
deep_copy_spec_into s out = s

unfoldable pub deep_copy_spec : Option ManifestSpec → Option ManifestSpec
unfolding deep_copy_spec_into
deep_copy_spec none = none
deep_copy_spec (some s) = some (deep_copy_spec_into s (record { message = "" }))

unfoldable pub deep_copy_status_into : ManifestStatus → ManifestStatus → ManifestStatus
deep_copy_status_into s out = s

unfoldable pub deep_copy_status : Option ManifestStatus → Option ManifestStatus
unfolding deep_copy_status_into
deep_copy_status none = none
deep_copy_status (some s) = some (deep_copy_status_into s (record { message = "" }))
