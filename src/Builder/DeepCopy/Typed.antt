-- ===== src/Builder/DeepCopy/Typed.antt =====
-- About the types of the objects that `DeepCopy` copies between.
use tilt_apiserver.Base.{
  ◌≡◌, sym, ap, ◌∙◌, true, String, [], ◌∷◌, some, ok, Option-cases, Bool-cases, List-cases, inl,
  inr, arith, ◌==◌, ==_iff,
}
use tilt_apiserver.Builder.DeepCopy.{
  Reflect, Method, deep_copy_into_method_name, check_signature, call_method, deep_copy,
}

-- A call writes what its argument points to, which keeps its type.
unfoldable pub KeepsTypes : Reflect → Type 0
KeepsTypes r =
    (src dst : r.Object) (name : String) (method : Method r.GoType r.Object)
    → r.method_by_name src name ≡ some method
    → r.type_of (method.call dst) ≡ r.type_of dst

module _ (r : Reflect) (src dst : r.Object) where
  -- Where calls keep the types of what they write: if `DeepCopy` returns without an error, then it
  -- called a method of the source that takes one argument and has no results, the destination fits
  -- the argument and the argument fits the source's type, and the destination has kept its type.
  pub deep_copy-typed :
      (out : r.Object)
      → KeepsTypes r
      → deep_copy r src dst ≡ some (ok out)
      → (method : Method r.GoType r.Object) × (t : r.GoType) × (r.method_by_name src
            deep_copy_into_method_name
          ≡ some method)
        × (method.inputs ≡ t ∷ [])
        × (method.outputs ≡ 0)
        × (r.assignable_to (r.type_of dst) t ≡ true)
        × (r.assignable_to t (r.type_of src) ≡ true)
        × (r.type_of out ≡ r.type_of dst)
  unfolding deep_copy check_signature call_method KeepsTypes
  deep_copy-typed out keeps h =
      elim (Option-cases (r.method_by_name src deep_copy_into_method_name)) [
        | inl q ↦ absurd (ground (arith, q, h))
        | inr (method, q) ↦ elim (List-cases method.inputs) [
          | inl p ↦ absurd (ground (arith, q, p, h))
          | inr (t, more, p) ↦ elim (List-cases more) [
            | inr (u, rest, o) ↦ absurd (ground (arith, q, p, o, h))
            | inl o ↦ elim (Bool-cases (r.assignable_to t (r.type_of src))) [
              | inr a ↦ absurd (ground (arith, q, p, o, a, h))
              | inl a ↦ elim (Bool-cases (method.outputs == 0)) [
                | inr b ↦ absurd (ground (arith, q, p, o, a, b, h))
                | inl b ↦ elim (Bool-cases (r.assignable_to (r.type_of dst) t)) [
                  | inr c ↦ absurd (ground (arith, q, p, o, a, b, c, h))
                  | inl c ↦
                      let written : method.call dst ≡ out = ground (arith, q, p, o, a, b, c, h) in
                      (
                        method,
                        t,
                        q,
                        p ∙ ap (λ l. t ∷ l) o,
                        (==_iff method.outputs 0).0 b,
                        c,
                        a,
                        sym (ap r.type_of written)
                            ∙ keeps src dst deep_copy_into_method_name method q,
                      )
                ]
              ]
            ]
          ]
        ]
      ]
