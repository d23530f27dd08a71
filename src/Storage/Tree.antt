-- ===== src/Storage/Tree.antt =====
-- The nested maps of `MemoryFS.dir`: a `map[string]interface{}` holds such maps and
-- `versionedData`. A map is an association list, in one of the orders that Go may range over it.
pub mod Lookup
pub mod Ensure
pub mod Modify
pub mod Free
pub mod Opens
use tilt_apiserver.Base.{
  ℕ, Bool, true, false, String, ◌=~◌, List, [], ◌∷◌, Option, none, some, Result, ok, err,
  path_conflict, if◌then◌else◌,
}

-- `versionedData`
pub record VersionedData : Type 0 where
  pub version : ℕ
  pub content : String

mutual
  pub data Node : Type 0 where
    directory : Dir → Node
    contents : VersionedData → Node

  pub data Dir : Type 0 where
    empty : Dir
    entry : String → Node → Dir → Dir

-- `dir[key]`
unfoldable pub get_entry : String → Dir → Option Node
get_entry key empty = none
get_entry key (entry k node d) = if k =~ key then some node else get_entry key d

-- `dir[key] = node`
unfoldable pub set_entry : String → Node → Dir → Dir
set_entry key node empty = entry key node empty
set_entry key node (entry k old d) =
    if k =~ key then entry key node d else entry k old (set_entry key node d)

-- `delete(dir, key)`
unfoldable pub delete_entry : String → Dir → Dir
delete_entry key empty = empty
delete_entry key (entry k node d) =
    let rest = delete_entry key d in if k =~ key then rest else entry k node rest

-- The loop of `ensureDir` over the parts of the path: the map found, or a path conflict, and the
-- tree with the maps made on the way, which stay when a later part is in conflict.
unfoldable pub ensure_parts : List String → Dir → Result Dir × Dir
ensure_parts [] d = (ok d, d)
ensure_parts (part ∷ parts) d = elim (get_entry part d) [
  | none ↦ let (r, made) = ensure_parts parts empty in (r, set_entry part (directory made) d)
  | some (directory inner) ↦
      let (r, made) = ensure_parts parts inner in (r, set_entry part (directory made) d)
  | some (contents v) ↦ (err (path_conflict part), d)
]

-- A write through the map that `ensureDir` returned: the map at the end of the parts is a part of
-- the tree, and the tree changes with it.
unfoldable pub modify_at : List String → (Dir → Dir) → Dir → Dir
modify_at [] change d = change d
modify_at (part ∷ parts) change d = elim (get_entry part d) [
  | none ↦ d
  | some (directory inner) ↦ set_entry part (directory (modify_at parts change inner)) d
  | some (contents v) ↦ d
]

-- The file at a location: the specification's view of the tree.
unfoldable pub file_at : List String → Dir → Option VersionedData
file_at [] d = none
file_at (part ∷ []) d = elim (get_entry part d) [
  | none ↦ none
  | some (directory inner) ↦ none
  | some (contents v) ↦ some v
]
file_at (part ∷ next ∷ parts) d = elim (get_entry part d) [
  | none ↦ none
  | some (directory inner) ↦ file_at (next ∷ parts) inner
  | some (contents v) ↦ none
]

-- A location that a file can be put at: no file stands on the way, and no directory at its end.
unfoldable pub is_free : List String → Dir → Bool
is_free [] d = false
is_free (part ∷ []) d = elim (get_entry part d) [
  | none ↦ true
  | some (directory inner) ↦ false
  | some (contents v) ↦ true
]
is_free (part ∷ next ∷ parts) d = elim (get_entry part d) [
  | none ↦ true
  | some (directory inner) ↦ is_free (next ∷ parts) inner
  | some (contents v) ↦ false
]
