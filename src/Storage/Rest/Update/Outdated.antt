-- ===== src/Storage/Rest/Update/Outdated.antt =====
-- About the errors of a write and of a decoding: which of them say that a version is outdated, or
-- that a file is not there.
use tilt_apiserver.Base.{
  ℕ, ◌≡◌, ◌≤◌, true, false, String, List, Option, some, err, Error, Result-cases, Option-cases,
  Bool-cases, inl, inr, arith, ◌==◌, is_not_found, is_not_exist, is_version_error,
}
use tilt_apiserver.Go.Decimal.{max_uint64}
use tilt_apiserver.Storage.Objects.{Machinery, HasOwnErrors}
use tilt_apiserver.Storage.Version.{set_resource_version, clear_resource_version}
use tilt_apiserver.Storage.Tree.{VersionedData}
use tilt_apiserver.Storage.Tree.Modify.{same_iff}
use tilt_apiserver.Storage.Spec.{Store, spec_write, spec_write_bytes, commit, with_file}
use tilt_apiserver.Storage.MemoryFs.{decode_buffer}

module _ (m : Machinery) (own : HasOwnErrors m) where
  commit_error :
      (loc : List String) (obj : m.Object) (buf : String) (s : Store) (e : Error)
      → (commit m loc obj buf s).0 ≡ err e
      → is_version_error e ≡ false
  unfolding commit set_resource_version
  commit_error loc obj buf s e h = elim (Option-cases (m.common_accessor obj)) [
    | inl p ↦ ground (arith, p, h)
    | inr (x, p) ↦ ground (arith, p, h, own.accessor_own obj x p)
  ]

  -- A write is outdated only where another version is stored.
  pub spec_write_outdated :
      (loc : List String) (obj : m.Object) (version : ℕ) (s : Store) (e : Error)
      → (spec_write m loc obj version s).0 ≡ err e
      → is_version_error e ≡ true
      → (v : VersionedData) × (s.files loc ≡ some v) × ((v.version == version) ≡ false)
  unfolding spec_write spec_write_bytes clear_resource_version
  spec_write_outdated loc obj version s e h t = elim (Option-cases (m.common_accessor obj)) [
    | inr (x, p) ↦ absurd (ground (arith, p, h, t, own.accessor_own obj x p))
    | inl p ↦ elim (Result-cases (m.encode (m.set_resource_version obj ""))) [
      | inr (x, q) ↦
          absurd (ground (arith, p, q, h, t, own.encode_own (m.set_resource_version obj "") x q))
      | inl (buf, q) ↦ elim (Option-cases (s.files loc)) [
        | inl r ↦ absurd (ground (arith, p, q, r, h, t, commit_error loc obj buf s e))
        | inr (v, r) ↦ elim (Bool-cases (v.version == version)) [
          | inr b ↦ (v, r, b)
          | inl b ↦ absurd (ground (arith, p, q, r, b, h, t, commit_error loc obj buf s e))
        ]
      ]
    ]
  ]

  pub decode_buffer_error :
      (v : VersionedData) (e : Error)
      → decode_buffer m v ≡ err e
      → (is_not_exist e ≡ false) × (is_not_found e ≡ false)
  unfolding decode_buffer set_resource_version
  decode_buffer_error v e h = elim (Result-cases (m.decode v.content)) [
    | inr (x, p) ↦ ground (arith, p, h, own.decode_own v.content x p)
    | inl (o, p) ↦ elim (Option-cases (m.common_accessor o)) [
      | inl q ↦ (ground (arith, p, q, h), ground (arith, p, q, h))
      | inr (x, q) ↦ (
        ground (arith, p, q, h, own.accessor_own o x q),
        ground (arith, p, q, h, own.accessor_own o x q),
      )
    ]
  ]

-- The stored version fits 64 bits.
abbrev pub IsSmall : Option VersionedData → Type 0
IsSmall o = (v : VersionedData) → o ≡ some v → v.version ≤ max_uint64

pub spec_write-IsSmall :
    (m : Machinery) (loc : List String) (obj : m.Object) (version : ℕ) (s : Store)
    → IsSmall (s.files loc)
    → IsSmall ((spec_write m loc obj version s).1.files loc)
unfolding spec_write spec_write_bytes commit with_file
spec_write-IsSmall m loc obj version s h v e = ground (arith, e, h v, (same_iff loc loc).1)
