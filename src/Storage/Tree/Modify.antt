-- ===== src/Storage/Tree/Modify.antt =====
-- A change of the map at a location changes the file of that location and no other.
use tilt_apiserver.Base.{
  ◌≡◌, refl, String, ◌=~◌, Bool, true, false, ◌&&◌, List, [], ◌∷◌, ◌++◌, Option, none, some, arith,
  eq_iff, eq_refl, ◌↔◌, if◌then◌else◌,
}
use tilt_apiserver.Storage.Tree.{
  Node, Dir, directory, contents, VersionedData, get_entry, set_entry, delete_entry, ensure_parts,
  modify_at, file_at, is_free,
}
use tilt_apiserver.Storage.Tree.Lookup.{get-set_entry, get-delete_entry}
use tilt_apiserver.Storage.Tree.Ensure.{child, file_at_empty, is_free_empty}

-- Equal locations.
abbrev pub same : List String → List String → Bool
same [] [] = true
same [] (k ∷ q) = false
same (k ∷ q) [] = false
same (k ∷ q) (j ∷ r) = k =~ j && same q r

pub same_iff : (q r : List String) → (same q r ≡ true) ↔ (q ≡ r)
same_iff [] [] = ground arith
same_iff [] (k ∷ q) = ground arith
same_iff (k ∷ q) [] = ground arith
same_iff (k ∷ q) (j ∷ r) = ground (arith, eq_iff k j, same_iff q r)

pub same_snoc_nil : (parts : List String) (name : String) → same (parts ++ name ∷ []) [] ≡ false
same_snoc_nil [] name = refl
same_snoc_nil (part ∷ parts) name = refl

-- The tree after `ensureDir` and a change of the map found.
abbrev pub change_at : List String → (Dir → Dir) → Dir → Dir
change_at parts change d = modify_at parts change (ensure_parts parts d).1

-- No file stands in the way of the first part.
abbrev pub is_open : Option Node → Bool
is_open none = true
is_open (some (directory inner)) = true
is_open (some (contents v)) = false

module _ (change : Dir → Dir) where
  change_at-cons :
      (part : String) (parts : List String) (d : Dir)
      → is_open (get_entry part d) ≡ true
      → let c = child (get_entry part d) in
        change_at (part ∷ parts) change d
        ≡ set_entry part
            (directory (change_at parts change c))
            (set_entry part (directory (ensure_parts parts c).1) d)
  unfolding modify_at ensure_parts
  change_at-cons part parts d h = ground (
    arith,
    eq_refl part,
    get-set_entry part part (directory (ensure_parts parts (child (get_entry part d))).1) d,
  )

  pub get-change_at :
      (part : String) (parts : List String) (k : String) (d : Dir)
      → is_open (get_entry part d) ≡ true
      → get_entry k (change_at (part ∷ parts) change d) ≡ (
          if part =~ k
          then some (directory (change_at parts change (child (get_entry part d))))
          else get_entry k d)
  get-change_at part parts k d h =
      let c = child (get_entry part d) in
      rw (change_at-cons part parts d h) (
        ground (
          arith,
          get-set_entry part k (directory (change_at parts change c))
              (set_entry part (directory (ensure_parts parts c).1) d),
          get-set_entry part k (directory (ensure_parts parts c).1) d,
        ))

  file_at-change_one :
      (part : String) (parts : List String) (k : String) (d : Dir)
      → is_open (get_entry part d) ≡ true
      → file_at (k ∷ []) (change_at (part ∷ parts) change d)
        ≡ (if part =~ k then none else file_at (k ∷ []) d)
  unfolding file_at
  file_at-change_one part parts k d h = ground (arith, get-change_at part parts k d)

  file_at-change_more :
      (part : String) (parts : List String) (k j : String) (q : List String) (d : Dir)
      → is_open (get_entry part d) ≡ true
      → file_at (k ∷ j ∷ q) (change_at (part ∷ parts) change d) ≡ (
          if part =~ k
          then file_at (j ∷ q) (change_at parts change (child (get_entry part d)))
          else file_at (k ∷ j ∷ q) d)
  unfolding file_at
  file_at-change_more part parts k j q d h = ground (arith, get-change_at part parts k d)

pub is_free-cons :
    (part : String) (parts : List String) (name : String) (d : Dir)
    → is_free (part ∷ (parts ++ name ∷ [])) d ≡ true
    → (is_open (get_entry part d) ≡ true)
      × (is_free (parts ++ name ∷ []) (child (get_entry part d)) ≡ true)
unfolding is_free
is_free-cons part [] name d h = ground (arith, is_free_empty name [])
is_free-cons part (next ∷ parts) name d h = ground (arith, is_free_empty next (parts ++ name ∷ []))

-- Below a directory that is not there, there is no file.
file_at-child :
    (part : String) (j : String) (q : List String) (d : Dir)
    → file_at (part ∷ j ∷ q) d ≡ file_at (j ∷ q) (child (get_entry part d))
unfolding file_at
file_at-child part j q d = ground (arith, file_at_empty (j ∷ q))

file_at-one_open :
    (part : String) (d : Dir) → is_open (get_entry part d) ≡ true → file_at (part ∷ []) d ≡ none
unfolding file_at
file_at-one_open part d h = ground arith

-- A change of one map that puts `w` at `name` and keeps the rest.
record Puts (change : Dir → Dir) (name : String) (w : Option VersionedData) : Type 0 where
  at_name :
      (k : String) (d : Dir)
      → is_free (name ∷ []) d ≡ true
      → file_at (k ∷ []) (change d) ≡ (if name =~ k then w else file_at (k ∷ []) d)
  below :
      (k j : String) (q : List String) (d : Dir)
      → is_free (name ∷ []) d ≡ true
      → file_at (k ∷ j ∷ q) (change d) ≡ file_at (k ∷ j ∷ q) d

module _ (change : Dir → Dir) (name : String) (w : Option VersionedData)
    (puts : Puts change name w) where
  file_at-change :
      (parts q : List String) (d : Dir)
      → is_free (parts ++ name ∷ []) d ≡ true
      → file_at q (change_at parts change d)
        ≡ (if same (parts ++ name ∷ []) q then w else file_at q d)
  file_at-change parts [] d h = rw (same_snoc_nil parts name) (unfold file_at in refl)
  file_at-change [] (k ∷ []) d h = unfold modify_at ensure_parts in ground (arith, puts.at_name k d)
  file_at-change [] (k ∷ j ∷ q) d h =
      unfold modify_at ensure_parts in ground (arith, puts.below k j q d)
  file_at-change (part ∷ parts) (k ∷ []) d h = ground (
    arith,
    is_free-cons part parts name d,
    file_at-change_one change part parts k d,
    same_snoc_nil parts name,
    file_at-one_open part d,
    eq_iff part k,
  )
  file_at-change (part ∷ parts) (k ∷ j ∷ q) d h = ground (
    arith,
    is_free-cons part parts name d,
    file_at-change_more change part parts k j q d,
    file_at-change parts (j ∷ q) (child (get_entry part d)),
    file_at-child part j q d,
    eq_iff part k,
  )

Puts-set_entry :
    (name : String) (v : VersionedData) → Puts (set_entry name (contents v)) name (some v)
unfolding file_at is_free
Puts-set_entry name v = record {
  at_name = λ k d h. ground (arith, get-set_entry name k (contents v) d);
  below = λ k j q d h. ground (arith, eq_iff name k, get-set_entry name k (contents v) d);
}

Puts-delete_entry : (name : String) → Puts (delete_entry name) name none
unfolding file_at is_free
Puts-delete_entry name = record {
  at_name = λ k d h. ground (arith, get-delete_entry name k d);
  below = λ k j q d h. ground (arith, eq_iff name k, get-delete_entry name k d);
}

-- `dir[name] = versionedData` through the map that was found.
pub file_at-put :
    (parts : List String) (name : String) (v : VersionedData) (q : List String) (d : Dir)
    → is_free (parts ++ name ∷ []) d ≡ true
    → file_at q (change_at parts (set_entry name (contents v)) d)
      ≡ (if same (parts ++ name ∷ []) q then some v else file_at q d)
file_at-put parts name v q d h =
    file_at-change (set_entry name (contents v)) name (some v) (Puts-set_entry name v) parts q d h

-- `delete(dir, name)` through the map that was found.
pub file_at-delete :
    (parts : List String) (name : String) (q : List String) (d : Dir)
    → is_free (parts ++ name ∷ []) d ≡ true
    → file_at q (change_at parts (delete_entry name) d)
      ≡ (if same (parts ++ name ∷ []) q then none else file_at q d)
file_at-delete parts name q d h =
    file_at-change (delete_entry name) name none (Puts-delete_entry name) parts q d h
