-- ===== src/Storage/Tree/Free.antt =====
-- A location stays free when the tree changes beside it.
use tilt_apiserver.Base.{◌≡◌, String, true, List, [], ◌∷◌, ◌++◌, some, arith, eq_refl}
use tilt_apiserver.Storage.Tree.{
  Dir, directory, contents, VersionedData, get_entry, set_entry, delete_entry, ensure_parts,
  modify_at, is_free,
}
use tilt_apiserver.Storage.Tree.Lookup.{get-set_entry, get-delete_entry}
use tilt_apiserver.Storage.Tree.Ensure.{child}
use tilt_apiserver.Storage.Tree.Modify.{is_open, change_at, get-change_at, is_free-cons}

pub is_free-inner :
    (part : String) (parts : List String) (k : String) (d inner : Dir)
    → get_entry part d ≡ some (directory inner)
    → is_free (part ∷ (parts ++ k ∷ [])) d ≡ is_free (parts ++ k ∷ []) inner
unfolding is_free
is_free-inner part [] k d inner h = ground arith
is_free-inner part (next ∷ parts) k d inner h = ground arith

get-ensure :
    (part : String) (parts : List String) (d : Dir)
    → is_open (get_entry part d) ≡ true
    → get_entry part (ensure_parts (part ∷ parts) d).1
      ≡ some (directory (ensure_parts parts (child (get_entry part d))).1)
unfolding ensure_parts
get-ensure part parts d h = ground (
  arith,
  eq_refl part,
  get-set_entry part part (directory (ensure_parts parts (child (get_entry part d))).1) d,
)

-- A change that leaves no directory under another name keeps every location beside it free.
record Keeps (change : Dir → Dir) : Type 0 where
  at : (k : String) (d : Dir) → is_free (k ∷ []) d ≡ true → is_free (k ∷ []) (change d) ≡ true

module _ (change : Dir → Dir) (keeps : Keeps change) where
  is_free-change :
      (parts : List String) (name k : String) (d : Dir)
      → is_free (parts ++ name ∷ []) d ≡ true
      → is_free (parts ++ k ∷ []) d ≡ true
      → is_free (parts ++ k ∷ []) (change_at parts change d) ≡ true
  is_free-change [] name k d h f = unfold modify_at ensure_parts in keeps.at k d f
  is_free-change (part ∷ parts) name k d h f =
      let (opened, inside) = is_free-cons part parts name d h in
      let c = child (get_entry part d) in
      rw
        (is_free-inner part parts k (change_at (part ∷ parts) change d) (change_at parts change c)
          (ground (arith, get-change_at change part parts part d opened, eq_refl part)))
        (is_free-change parts name k c inside (is_free-cons part parts k d f).1)

pub is_free-put :
    (parts : List String) (name k : String) (v : VersionedData) (d : Dir)
    → is_free (parts ++ name ∷ []) d ≡ true
    → is_free (parts ++ k ∷ []) d ≡ true
    → is_free (parts ++ k ∷ []) (change_at parts (set_entry name (contents v)) d) ≡ true
unfolding is_free
is_free-put parts name k v d =
    is_free-change (set_entry name (contents v))
      (record { at = λ j e f. ground (arith, get-set_entry name j (contents v) e) }) parts name k d

pub is_free-delete :
    (parts : List String) (name k : String) (d : Dir)
    → is_free (parts ++ name ∷ []) d ≡ true
    → is_free (parts ++ k ∷ []) d ≡ true
    → is_free (parts ++ k ∷ []) (change_at parts (delete_entry name) d) ≡ true
unfolding is_free
is_free-delete parts name k d =
    is_free-change (delete_entry name)
      (record { at = λ j e f. ground (arith, get-delete_entry name j e) }) parts name k d

pub is_free-ensure :
    (parts : List String) (k : String) (d : Dir)
    → is_free (parts ++ k ∷ []) d ≡ true
    → is_free (parts ++ k ∷ []) (ensure_parts parts d).1 ≡ true
is_free-ensure [] k d h = unfold ensure_parts in h
is_free-ensure (part ∷ parts) k d h =
    let (opened, inside) = is_free-cons part parts k d h in
    let c = child (get_entry part d) in
    rw
      (is_free-inner part parts k (ensure_parts (part ∷ parts) d).1 (ensure_parts parts c).1
        (get-ensure part parts d opened))
      (is_free-ensure parts k c inside)
