-- ===== src/Storage/Spec/Newer.antt =====
-- About the versions of a store after other users have moved on.
use tilt_apiserver.Base.{
  ℕ, suc, ◌^◌, ◌≤◌, ◌<◌, ◌≡◌, ◌≢◌, ◌⊎◌, String, ◌=~◌, List, none, some, ok, err, Error, not_exist,
  version_error, not, ◌&&◌, Result-cases, Option-cases, Bool-cases, inl, inr, arith, ◌==◌, ◌>>=◌,
}
use mathlib.Core.Path.{subst}
use tilt_apiserver.Storage.Objects.{Machinery}
use tilt_apiserver.Storage.Version.{set_resource_version, clear_resource_version}
use tilt_apiserver.Storage.Tree.{VersionedData}
use tilt_apiserver.Storage.Tree.Modify.{same, same_iff}
use tilt_apiserver.Storage.Spec.{
  Store, with_file, spec_remove, commit, spec_write_bytes, spec_write,
}
use tilt_apiserver.Storage.Spec.Versions.{HasVersions, no_wrap, Writes, keeps, rises, puts}

-- A later state: what is stored is as it was, or has a version above the old revision.
pub record IsNewer (s t : Store) : Type 0 where
  pub grown : s.rev ≤ t.rev
  pub newer :
      (q : List String) (v : VersionedData)
      → t.files q ≡ some v
      → (s.files q ≡ some v) ⊎ (s.rev < v.version)

pub IsNewer-refl : (s : Store) → IsNewer s s
IsNewer-refl s = record { grown = omega arith; newer = λ q v e. inl e }

pub IsNewer-trans : {s t u : Store} → IsNewer s t → IsNewer t u → IsNewer s u
IsNewer-trans {s} {t} {u} h k = record {
  grown = omega (arith, h.grown, k.grown);
  newer = λ q v e. elim (k.newer q v e) [
    | inl there ↦ h.newer q v there
    | inr above ↦ inr (omega (arith, h.grown, above))
  ];
}

pub Writes-IsNewer : {loc : List String} {s t : Store} → Writes loc s t → IsNewer s t
unfolding with_file
Writes-IsNewer {loc} {s} keeps = IsNewer-refl s
Writes-IsNewer {loc} {s} rises = record { grown = omega arith; newer = λ q v e. inl e }
Writes-IsNewer {loc} {s} (puts content) = record {
  grown = omega arith;
  newer = λ q v e. elim (Bool-cases (same loc q)) [
    | inl b ↦ inr (ground (arith, e, b))
    | inr b ↦ inl (ground (arith, e, b))
  ];
}

pub spec_remove-IsNewer : (loc : List String) (s : Store) → IsNewer s (spec_remove loc s).1
unfolding spec_remove with_file
spec_remove-IsNewer loc s = elim (Option-cases (s.files loc)) [
  | inl p ↦ subst (IsNewer s) (ground (arith, p)) (IsNewer-refl s)
  | inr (v, p) ↦
      let dropped : IsNewer s (with_file loc none s.rev s) = record {
        grown = omega arith;
        newer = λ q w e. inl (ground (arith, e));
      } in
      subst (IsNewer s) (ground (arith, p)) dropped
]

pub Writes-rev : {loc : List String} {s t : Store} → Writes loc s t → t.rev ≤ suc s.rev
unfolding with_file
Writes-rev keeps = omega arith
Writes-rev rises = omega arith
Writes-rev (puts content) = omega arith

pub spec_remove-rev : (loc : List String) (s : Store) → (spec_remove loc s).1.rev ≡ s.rev
unfolding spec_remove with_file
spec_remove-rev loc s = elim (Option-cases (s.files loc)) [
  | inl p ↦ ground (arith, p)
  | inr (v, p) ↦ ground (arith, p)
]

module _ (m : Machinery) (loc : List String) (version : ℕ) where
  -- A write that changed the store, and named a version other than 0, took the place of a file of
  -- that version, and has the new revision for its own.
  pub spec_write-placed :
      (obj : m.Object) (s : Store)
      → suc s.rev < 2 ^ 64
      → HasVersions s
      → version ≢ 0
      → (out : m.Object) → (spec_write m loc obj version s).0 ≡ ok out
      → (spec_write m loc obj version s).1.rev ≢ s.rev
      → (version ≤ s.rev)
        × ((spec_write m loc obj version s).1.rev ≡ suc s.rev)
        × ((content : String) × ((spec_write m loc obj version s).1.files loc
              ≡ some (record { version = suc s.rev; content = content })))
  unfolding spec_write spec_write_bytes commit with_file
  spec_write-placed obj s small h given out returned changed =
      elim (Result-cases (clear_resource_version m obj >>= m.encode)) [
        | inr (e, p) ↦ absurd (changed (ground (arith, p)))
        | inl (buf, p) ↦ elim (Option-cases (s.files loc)) [
          | inl q ↦ absurd (ground (arith, p, q, given, returned))
          | inr (v, q) ↦ elim (Bool-cases (v.version == version && not (v.content =~ buf))) [
            | inr b ↦ absurd (changed (ground (arith, p, q, b)))
            | inl b ↦ elim (Result-cases (set_resource_version m obj (suc s.rev))) [
              | inr (e, r) ↦ absurd (ground (arith, p, q, b, r, returned, no_wrap s.rev small))
              | inl (o, r) ↦ (
                ground (arith, b, h.bounded loc v q),
                ground (arith, p, q, b, r, no_wrap s.rev small),
                (buf, ground (arith, p, q, b, r, no_wrap s.rev small, (same_iff loc loc).1)),
              )
            ]
          ]
        ]
      ]

  -- A write is refused where the file is gone or has another version, if it does not make a file.
  pub spec_write-refused :
      (obj : m.Object) (s : Store)
      → version ≢ 0
      → ((v : VersionedData) → s.files loc ≡ some v → v.version ≢ version)
      → ((e : Error) × ((spec_write m loc obj version s).0 ≡ err e))
        × ((spec_write m loc obj version s).1 ≡ s)
  unfolding spec_write spec_write_bytes
  spec_write-refused obj s given other =
      elim (Result-cases (clear_resource_version m obj >>= m.encode)) [
        | inr (e, p) ↦ ((e, ground (arith, p)), ground (arith, p))
        | inl (buf, p) ↦ elim (Option-cases (s.files loc)) [
          | inl q ↦ ((not_exist, ground (arith, p, q, given)), ground (arith, p, q, given))
          | inr (v, q) ↦
              let o = other v q in
              ((version_error, ground (arith, p, q, o)), ground (arith, p, q, o))
        ]
      ]
