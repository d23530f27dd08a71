-- ===== src/Base/Errors.antt =====
-- The errors that the storage layer returns, and the result of a call that may fail.
use Prim.Native.String.{String}
use mathlib.Core.Path.{◌≡◌, refl}
use mathlib.Core.Logic.{◌⊎◌, inl, inr}
use mathlib.Core.Bool.{Bool, true, false}

-- One constructor for each error value that the code makes or tells apart, and `other` for the
-- errors of the packages that it calls.
pub data Error : Type 0 where
  -- `os.ErrNotExist`, or a `PathError` that `os.IsNotExist` accepts
  not_exist : Error
  -- `VersionError`
  version_error : Error
  -- the path conflict of `MemoryFS.ensureDir`, with the part that is no directory
  path_conflict : String → Error
  -- "resourceVersion must be positive"
  version_not_positive : Error
  -- `strconv.ErrSyntax` and `strconv.ErrRange`
  syntax_error range_error : Error
  -- `ErrNamespaceNotExists`
  namespace_not_exists : Error
  -- `apierrors.NewNotFound`, `NewAlreadyExists`, `NewConflict`, with the name of the object
  not_found already_exists conflict : String → Error
  -- `apierrors.NewInternalError`
  internal : String → Error
  -- "failed walking filepath": `%v` keeps the text of the error and loses its identity
  failed_walking : String → Error
  other : String → Error

pub data Result {ℓ} (A : Type ℓ) : Type ℓ where
  ok : A → Result A
  err : Error → Result A

-- `os.IsNotExist`
abbrev pub is_not_exist : Error → Bool
is_not_exist not_exist = true
is_not_exist _ = false

-- `errors.Is(err, VersionError)`
abbrev pub is_version_error : Error → Bool
is_version_error version_error = true
is_version_error _ = false

-- `apierrors.IsNotFound`
abbrev pub is_not_found : Error → Bool
is_not_found (not_found _) = true
is_not_found _ = false

infixl 5 ◌>>=◌
abbrev pub ◌>>=◌ {ℓ κ} : {A : Type ℓ} {B : Type κ} → Result A → (A → Result B) → Result B
ok a >>= f = f a
err e >>= f = err e

pub Result-cases {ℓ} :
    {A : Type ℓ} (r : Result A) → ((a : A) × (r ≡ ok a)) ⊎ ((e : Error) × (r ≡ err e))
Result-cases (ok a) = inl (a, refl)
Result-cases (err e) = inr (e, refl)
