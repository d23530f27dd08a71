-- ===== src/Tests/Schemes.antt =====
-- The codec of a server of one resource, with schemes that are tests of what they know.
use tilt_apiserver.Base.{
  ◌≡◌, refl, Bool, true, false, ◌&&◌, ◌||◌, String, List, [], ◌∷◌, none, Result, ok, internal,
  eq_refl, arith, ◌=~◌,
}
use tilt_apiserver.Builder.Register.{GroupVersion, same_version, group_version}
use tilt_apiserver.Builder.Scheme.{
  Conversion, to_storage_version, from_storage_version, SchemePackage, SchemeObject, Builder, adds,
  adds_types, registers_versions, build_codec, run_builder, run_registration, add_to_scheme,
  add_object, add_versions, register_group_versions, group_versions_of, insert_version,
  set_priorities, add_group_versions,
}
use tilt_apiserver.Builder.Scheme.Types.{Each, Fact, known, converts, KnowsTypes}
use tilt_apiserver.Builder.Scheme.Known.{IsDone, build_codec-IsDone}
use tilt_apiserver.Server.ApiGroups.Served.{has}

abbrev Tested : Type 0
Tested = Fact String → Bool

abbrev with_types : GroupVersion → List String → Tested → Tested
with_types v kinds s (known w x) = same_version v w && has x kinds || s (known w x)
with_types v kinds s (converts a b c) = s (converts a b c)

abbrev same_conversion : Conversion → Conversion → Bool
same_conversion to_storage_version to_storage_version = true
same_conversion to_storage_version from_storage_version = false
same_conversion from_storage_version to_storage_version = false
same_conversion from_storage_version from_storage_version = true

abbrev is_conversion : String → String → Conversion → Fact String → Bool
is_conversion a b c (known w x) = false
is_conversion a b c (converts p q d) = p =~ a && (q =~ b && same_conversion c d)

abbrev with_conversion : String → String → Conversion → Tested → Tested
with_conversion a b c s x = is_conversion a b c x || s x

abbrev knows_nothing : Tested
knows_nothing x = false

abbrev pub schemes : SchemePackage
schemes = record {
  Scheme = Tested;
  Kind = String;
  Codec = List GroupVersion;
  empty_scheme = knows_nothing;
  unversioned_kinds = [];
  add_unversioned_types = with_types;
  add_known_types = with_types;
  add_conversion_func = λ a b c s. ok (with_conversion a b c s);
  add_type_defaulting_func = λ a s. s;
  set_version_priority = λ versions s. ok s;
  add_to_group_version = λ v s. s;
  legacy_codec = λ versions s. versions;
  error_list = λ errs. internal "errors";
}

Each-has :
    (v : GroupVersion) (kinds xs : List String) (s : Tested)
    → ((x : String) → has x xs ≡ true → has x kinds ≡ true)
    → Each (λ x. with_types v kinds s (known v x) ≡ true) xs
Each-has v kinds [] s f = tt
Each-has v kinds (x ∷ xs) s f = (
  ground (arith, f x (ground (arith, eq_refl x)), eq_refl v.group, eq_refl v.version),
  Each-has v kinds xs s (λ y h. f y (ground (arith, h))),
)

same-true : (s t : Tested) (x : Fact String) → Result.ok s ≡ ok t → s x ≡ true → t x ≡ true
same-true s t x h b = ground (arith, h, b)

with_types-true :
    (w : GroupVersion) (kinds : List String) (s : Tested) (x : Fact String)
    → s x ≡ true
    → with_types w kinds s x ≡ true
with_types-true w kinds s (known v x) b = ground (arith, b)
with_types-true w kinds s (converts a c d) b = b

with_conversion-true :
    (a b : String) (c : Conversion) (s t : Tested) (x : Fact String)
    → Result.ok (with_conversion a b c s) ≡ ok t
    → s x ≡ true
    → t x ≡ true
with_conversion-true a b c s t x h e = same-true (with_conversion a b c s) t x h (ground (arith, e))

same_conversion_refl : (c : Conversion) → same_conversion c c ≡ true
same_conversion_refl to_storage_version = refl
same_conversion_refl from_storage_version = refl

converts-true :
    (a b : String) (c : Conversion) (s t : Tested)
    → Result.ok (with_conversion a b c s) ≡ ok t
    → t (converts a b c) ≡ true
converts-true a b c s t h =
    let there : is_conversion a b c (converts a b c) ≡ true =
      ground (arith, eq_refl a, eq_refl b, same_conversion_refl c) in
    same-true (with_conversion a b c s) t (converts a b c) h (ground (arith, there))

abbrev knows : KnowsTypes schemes
knows = record {
  Holds = λ s x. s x ≡ true;
  known-added = λ v kinds s. Each-has v kinds kinds s (λ x h. h);
  converts-added = converts-true;
  added_keeps = with_types-true;
  converted_keeps = with_conversion-true;
  defaulted_keeps = λ a s x b. b;
  ordered_keeps = λ versions s t x. same-true s t x;
  listed_keeps = λ w s x b. b;
}

abbrev pub manifest_object : SchemeObject schemes
manifest_object = record {
  gvr = record { group = "core"; version = "v1"; resource = "manifests" };
  kind = "Manifest";
  new = "Manifest";
  new_list = "ManifestList";
  is_storage_version = true;
  storage_kind = none;
  is_defaulter = false;
}

abbrev pub builder : Builder schemes
builder = record {
  apis = manifest_object.gvr ∷ [];
  ordered_group_versions = group_version manifest_object.gvr ∷ [];
  api_scheme_builder = adds manifest_object ∷ [];
  openapi_scheme_builder = adds_types manifest_object ("Manifest" ∷ "ManifestList" ∷ []) ∷ [];
  api_scheme = knows_nothing;
  openapi_scheme = knows_nothing;
  errs = [];
}

abbrev pub as_listed : List String → List String
as_listed names = names

abbrev kinds : List String
kinds = "Manifest" ∷ "ManifestList" ∷ []

abbrev api : Tested
api =
    with_types (record { group = "core"; version = "__internal" }) kinds
      (with_types (group_version manifest_object.gvr) kinds knows_nothing)

abbrev openapi : Tested
openapi = with_types (group_version manifest_object.gvr) kinds knows_nothing

abbrev pub built : Builder schemes
built = record builder {
  api_scheme_builder = adds manifest_object ∷ registers_versions ∷ [];
  openapi_scheme_builder = adds_types manifest_object kinds ∷ registers_versions ∷ [];
  api_scheme = api;
  openapi_scheme = openapi;
}

pub build_run :
    build_codec schemes as_listed builder ≡ ok (group_version manifest_object.gvr ∷ [], built)
unfolding build_codec run_builder run_registration add_to_scheme add_object add_versions
    register_group_versions group_versions_of insert_version set_priorities add_group_versions
build_run = refl

build_codec-IsDone_example :
    (builder.errs ≡ [])
    × Each (IsDone schemes knows api) builder.api_scheme_builder
    × Each (IsDone schemes knows openapi) builder.openapi_scheme_builder
build_codec-IsDone_example =
    build_codec-IsDone schemes knows as_listed builder built
      (group_version manifest_object.gvr ∷ []) build_run
