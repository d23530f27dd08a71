-- ===== src/Storage/Tree/Ensure.antt =====
-- `ensureDir` makes directories and changes no file.
use tilt_apiserver.Base.{
  ◌≡◌, refl, String, List, [], ◌∷◌, ◌++◌, Option, true, none, some, ok, arith, eq_iff,
}
use tilt_apiserver.Storage.Tree.{
  Node, Dir, empty, directory, contents, VersionedData, get_entry, ensure_parts, file_at, is_free,
}
use tilt_apiserver.Storage.Tree.Lookup.{get-set_entry}

pub file_at_empty : (q : List String) → file_at q empty ≡ none
unfolding file_at get_entry
file_at_empty [] = refl
file_at_empty (k ∷ []) = refl
file_at_empty (k ∷ j ∷ q) = refl

-- The map that the loop goes on with.
abbrev pub child : Option Node → Dir
child none = empty
child (some (directory inner)) = inner
child (some (contents v)) = empty

-- Whatever the path, every file is as before.
pub file_at-ensure :
    (parts q : List String) (d : Dir) → file_at q (ensure_parts parts d).1 ≡ file_at q d
unfolding file_at ensure_parts
file_at-ensure [] q d = refl
file_at-ensure (part ∷ parts) [] d = refl
file_at-ensure (part ∷ parts) (k ∷ []) d = ground (
  arith,
  eq_iff part k,
  get-set_entry part k (directory (ensure_parts parts (child (get_entry part d))).1) d,
)
file_at-ensure (part ∷ parts) (k ∷ j ∷ q) d = ground (
  arith,
  eq_iff part k,
  file_at_empty (j ∷ q),
  get-set_entry part k (directory (ensure_parts parts (child (get_entry part d))).1) d,
  file_at-ensure parts (j ∷ q) (child (get_entry part d)),
)

-- What stands under a name of the map that was found is the file of that location.
abbrev pub as_file : Option Node → Option VersionedData
as_file none = none
as_file (some (directory inner)) = none
as_file (some (contents v)) = some v

pub entry-ensure :
    (parts : List String) (name : String) (d inner : Dir)
    → (ensure_parts parts d).0 ≡ ok inner
    → as_file (get_entry name inner) ≡ file_at (parts ++ name ∷ []) d
unfolding file_at ensure_parts
entry-ensure [] name d inner h = ground arith
entry-ensure (part ∷ []) name d inner h =
    ground (arith, entry-ensure [] name (child (get_entry part d)) inner, file_at_empty (name ∷ []))
entry-ensure (part ∷ next ∷ parts) name d inner h = ground (
  arith,
  entry-ensure (next ∷ parts) name (child (get_entry part d)) inner,
  file_at_empty (next ∷ parts ++ name ∷ []),
)

pub is_free_empty : (part : String) (parts : List String) → is_free (part ∷ parts) empty ≡ true
unfolding is_free get_entry
is_free_empty part [] = refl
is_free_empty part (next ∷ parts) = refl

-- At a free location the loop finds a map, in which the name is no directory.
pub ensure_is_free :
    (parts : List String) (name : String) (d : Dir)
    → is_free (parts ++ name ∷ []) d ≡ true
    → (inner : Dir) × ((ensure_parts parts d).0 ≡ ok inner)
unfolding is_free ensure_parts
ensure_is_free [] name d h = (d, refl)
ensure_is_free (part ∷ []) name d h = (child (get_entry part d), ground arith)
ensure_is_free (part ∷ next ∷ parts) name d h = ground (
  arith,
  ensure_is_free (next ∷ parts) name (child (get_entry part d)),
  is_free_empty next (parts ++ name ∷ []),
)

-- At a free location, the name is no directory of the map that was found.
pub entry_is_free :
    (parts : List String) (name : String) (d inner : Dir)
    → is_free (parts ++ name ∷ []) d ≡ true
    → (ensure_parts parts d).0 ≡ ok inner
    → is_free (name ∷ []) inner ≡ true
unfolding is_free ensure_parts
entry_is_free [] name d inner h e = ground arith
entry_is_free (part ∷ []) name d inner h e =
    ground (arith, entry_is_free [] name (child (get_entry part d)) inner, is_free_empty name [])
entry_is_free (part ∷ next ∷ parts) name d inner h e = ground (
  arith,
  entry_is_free (next ∷ parts) name (child (get_entry part d)) inner,
  is_free_empty next (parts ++ name ∷ []),
)
