-- ===== src/Storage/Objects.antt =====
-- What the storage uses of the Kubernetes packages: objects with their metadata, and a codec.
-- The packages are not modelled. They are the fields of `Machinery`, with what the code relies on
-- in `IsLawful`.
use tilt_apiserver.Base.{
  ◌≡◌, false, String, Option, some, Result, ok, err, Error, is_version_error, is_not_exist,
  is_not_found,
}

pub record Machinery : Type 1 where
  pub Object : Type 0
  -- `meta.CommonAccessor(obj)`: the error, if the object has no common metadata
  pub common_accessor : Object → Option Error
  pub get_resource_version : Object → String
  pub set_resource_version : Object → String → Object
  -- `encoder.Encode(obj, buf)`: the bytes written
  pub encode : Object → Result String
  -- `decoder.Decode(content, nil, newFunc())`
  pub decode : String → Result Object

pub record IsLawful (m : Machinery) : Type 0 where
  pub get-set :
      (o : m.Object) (v : String) → m.get_resource_version (m.set_resource_version o v) ≡ v
  pub set-set :
      (o : m.Object) (v w : String)
      → m.set_resource_version (m.set_resource_version o v) w ≡ m.set_resource_version o w
  pub set-get : (o : m.Object) → m.set_resource_version o (m.get_resource_version o) ≡ o
  pub accessor-set :
      (o : m.Object) (v : String)
      → m.common_accessor (m.set_resource_version o v) ≡ m.common_accessor o

-- What was encoded can be decoded, to the object as the codec writes it: with its kind filled in and
-- its times cut to seconds, for the codec of Kubernetes. Its metadata and its version are its own.
pub record ReadsBack (m : Machinery) : Type 0 where
  pub written : m.Object → m.Object
  pub decode-encode :
      (o : m.Object) (content : String)
      → m.encode o ≡ ok content
      → m.decode content ≡ ok (written o)
  pub accessor-written : (o : m.Object) → m.common_accessor (written o) ≡ m.common_accessor o
  pub written-set :
      (o : m.Object) (v : String)
      → written (m.set_resource_version o v) ≡ m.set_resource_version (written o) v

-- The codec and the metadata have errors of their own: none of them is taken for `VersionError`,
-- for a file that is not there, or for an object that is not found.
abbrev pub IsOwn : Error → Type 0
IsOwn e = (is_version_error e ≡ false) × (is_not_exist e ≡ false) × (is_not_found e ≡ false)

pub record HasOwnErrors (m : Machinery) : Type 0 where
  pub accessor_own : (o : m.Object) (e : Error) → m.common_accessor o ≡ some e → IsOwn e
  pub encode_own : (o : m.Object) (e : Error) → m.encode o ≡ err e → IsOwn e
  pub decode_own : (content : String) (e : Error) → m.decode content ≡ err e → IsOwn e
