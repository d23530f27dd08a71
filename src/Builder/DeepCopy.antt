-- ===== src/Builder/DeepCopy.antt =====
-- pkg/server/builder/resource/util/deepcopy.go: the copy of one object into another by the method
-- `DeepCopyInto`, which is looked up by its name.
pub mod Typed
use tilt_apiserver.Base.{
  ℕ, ◌==◌, Bool, String, ◌<>◌, List, [], ◌∷◌, Option, none, some, Result, ok, err, Error, internal,
  if◌then◌else◌,
}

-- A method value, bound to its receiver: the types of its arguments, the number of its results, and
-- the new value of what a single argument points to.
pub record Method (GoType Object : Type 0) : Type 0 where
  pub inputs : List GoType
  pub outputs : ℕ
  pub call : Object → Object

-- What is used of package reflect, over pointers to objects: the type of an object, its text,
-- `AssignableTo`, and `MethodByName`.
pub record Reflect : Type 1 where
  pub Object : Type 0
  pub GoType : Type 0
  pub type_of : Object → GoType
  pub type_text : GoType → String
  pub assignable_to : GoType → GoType → Bool
  pub method_by_name : Object → String → Option (Method GoType Object)

abbrev pub deep_copy_into_method_name : String
deep_copy_into_method_name = "DeepCopyInto"

module _ (r : Reflect) where
  -- `checkSignature`: the error, if there is one.
  unfoldable pub check_signature : r.GoType → Method r.GoType r.Object → Option Error
  check_signature src method = elim method.inputs [
    | [] ↦ some (internal "invalid number of arguments")
    | t ∷ more ↦ elim more [
      | u ∷ rest ↦ some (internal "invalid number of arguments")
      | [] ↦
          if r.assignable_to t src
          then (if method.outputs == 0
              then none
              else some (internal "should not have return values"))
          else some (internal "invalid type of arguments[0]")
    ]
  ]

  -- `reflect.Value.Call` of one argument: `none` is its panic on an argument that does not fit.
  unfoldable pub call_method : Method r.GoType r.Object → r.Object → Option r.Object
  call_method method dst = elim method.inputs [
    | [] ↦ none
    | t ∷ more ↦ elim more [
      | u ∷ rest ↦ none
      | [] ↦ if r.assignable_to (r.type_of dst) t then some (method.call dst) else none
    ]
  ]

  -- `DeepCopy`: an error, or what `dst` points to afterwards; `none` is a panic.
  unfoldable pub deep_copy : r.Object → r.Object → Option (Result r.Object)
  unfolding check_signature call_method
  deep_copy src dst = elim (r.method_by_name src deep_copy_into_method_name) [
    | none ↦ some (err (internal "no DeepCopyInto method found"))
    | some method ↦ elim (check_signature (r.type_of src) method) [
      | some e ↦ some (err e)
      | none ↦ elim (call_method method dst) [ none ↦ none | some out ↦ some (ok out) ]
    ]
  ]
