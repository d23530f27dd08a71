-- ===== src/Storage/Version.antt =====
-- pkg/storage/filepath/version.go: the resource version of an object.
use tilt_apiserver.Base.{
  ℕ, zero, suc, ◌=~◌, ◌≡◌, ◌≤◌, String, Option, none, some, Result, ok, err, version_not_positive,
  eq_iff, arith, Bool-cases, inl, inr, ap, if◌then◌else◌,
}
use tilt_apiserver.Go.Decimal.{format_uint, parse_uint, parse_uint_empty, max_uint64}
use tilt_apiserver.Go.Decimal.RoundTrip.{parse-format_uint}
use tilt_apiserver.Storage.Objects.{Machinery}

unfoldable pub parse_resource_version : String → Result ℕ
parse_resource_version v = if v =~ "" then ok 0 else parse_uint v

unfoldable pub format_resource_version : ℕ → String
format_resource_version v = format_uint v

module _ (m : Machinery) where
  -- `none` is a nil object.
  unfoldable pub get_resource_version : Option m.Object → Result ℕ
  unfolding parse_resource_version
  get_resource_version none = ok 0
  get_resource_version (some obj) = elim (m.common_accessor obj) [
    | some e ↦ err e
    | none ↦ parse_resource_version (m.get_resource_version obj)
  ]

  -- The versions are unsigned, so `v <= 0` is `v == 0`. The new object is what the pointer holds.
  unfoldable pub set_resource_version : m.Object → ℕ → Result m.Object
  set_resource_version obj zero = err version_not_positive
  set_resource_version obj (suc v) = elim (m.common_accessor obj) [
    | some e ↦ err e
    | none ↦ ok (m.set_resource_version obj (format_resource_version (suc v)))
  ]

  unfoldable pub clear_resource_version : m.Object → Result m.Object
  clear_resource_version obj = elim (m.common_accessor obj) [
    | some e ↦ err e
    | none ↦ ok (m.set_resource_version obj "")
  ]

-- A version that fits 64 bits is read back from its text.
pub parse-format_resource_version :
    (v : ℕ) → v ≤ max_uint64 → parse_resource_version (format_resource_version v) ≡ ok v
unfolding parse_resource_version format_resource_version
parse-format_resource_version v h = elim (Bool-cases (format_uint v =~ "")) [
  | inr e ↦ rw e (parse-format_uint v h)
  | inl e ↦ absurd (
      ground (
        arith,
        parse-format_uint v h,
        ap parse_uint ((eq_iff (format_uint v) "").0 e),
        parse_uint_empty,
      ))
]
