-- ===== src/Storage/Tree/Opens.antt =====
-- About a change of the tree at the end of directories that are there.
use tilt_apiserver.Base.{
  ◌≡◌, refl, sym, ◌∙◌, Bool, true, false, String, ◌=~◌, List, [], ◌∷◌, ◌++◌, none, some, ok,
  Option-cases, Bool-cases, inl, inr, arith, eq_iff,
}
use tilt_apiserver.Storage.Tree.{
  VersionedData, Node, Dir, empty, entry, directory, contents, get_entry, set_entry, delete_entry,
  ensure_parts, modify_at, file_at, is_free,
}
use tilt_apiserver.Storage.Tree.Free.{is_free-inner}
use tilt_apiserver.Storage.Tree.Lookup.{get-set_entry, get-delete_entry}

-- All directories of the path are there.
unfoldable pub opens : List String → Dir → Bool
opens [] d = true
opens (part ∷ parts) d = elim (get_entry part d) [
  | none ↦ false
  | some (directory inner) ↦ opens parts inner
  | some (contents v) ↦ false
]

pub file_at-opens :
    (parts : List String) (name : String) (v : VersionedData) (d : Dir)
    → file_at (parts ++ name ∷ []) d ≡ some v
    → opens parts d ≡ true
unfolding opens file_at
file_at-opens [] name v d h = refl
file_at-opens (part ∷ []) name v d h = elim (Option-cases (get_entry part d)) [
  | inl e ↦ absurd (ground (arith, h, e))
  | inr (directory inner, e) ↦ ground (arith, e)
  | inr (contents w, e) ↦ absurd (ground (arith, h, e))
]
file_at-opens (part ∷ next ∷ parts) name v d h = elim (Option-cases (get_entry part d)) [
  | inl e ↦ absurd (ground (arith, h, e))
  | inr (directory inner, e) ↦
      ground (arith, e, file_at-opens (next ∷ parts) name v inner (ground (arith, h, e)))
  | inr (contents w, e) ↦ absurd (ground (arith, h, e))
]

pub file_at-is_free :
    (q : List String) (v : VersionedData) (d : Dir) → file_at q d ≡ some v → is_free q d ≡ true
unfolding is_free file_at
file_at-is_free [] v d h = ground (arith, h)
file_at-is_free (part ∷ []) v d h = ground (arith, h)
file_at-is_free (part ∷ next ∷ q) v d h = elim (Option-cases (get_entry part d)) [
  | inl e ↦ absurd (ground (arith, h, e))
  | inr (directory inner, e) ↦
      ground (arith, e, file_at-is_free (next ∷ q) v inner (ground (arith, h, e)))
  | inr (contents w, e) ↦ absurd (ground (arith, h, e))
]

set-get_entry :
    (key : String) (node : Node) (d : Dir) → get_entry key d ≡ some node → set_entry key node d ≡ d
unfolding get_entry set_entry
set-get_entry key node empty h = absurd (ground (arith, h))
set-get_entry key node (entry k old d) h = elim (Bool-cases (k =~ key)) [
  | inl e ↦ ground (arith, e, h, eq_iff k key)
  | inr e ↦ ground (arith, e, h, set-get_entry key node d)
]

-- No directory is made where all are there.
pub ensure-opens :
    (parts : List String) (d : Dir)
    → opens parts d ≡ true
    → ((ensure_parts parts d).1 ≡ d) × ((inner : Dir) × ((ensure_parts parts d).0 ≡ ok inner))
unfolding opens ensure_parts
ensure-opens [] d h = (refl, (d, refl))
ensure-opens (part ∷ parts) d h = elim (Option-cases (get_entry part d)) [
  | inl e ↦ absurd (ground (arith, h, e))
  | inr (directory inner, e) ↦
      let (same, (last, found)) = ensure-opens parts inner (ground (arith, h, e)) in
      (
        ground (arith, e, same, set-get_entry part (directory inner) d e),
        (last, ground (arith, e, found)),
      )
  | inr (contents w, e) ↦ absurd (ground (arith, h, e))
]

-- The deletion of a file keeps every other location free, and every directory.
pub is_free-modify :
    (parts : List String) (name : String) (q : List String) (d : Dir)
    → is_free q d ≡ true
    → is_free q (modify_at parts (delete_entry name) d) ≡ true
unfolding is_free modify_at
is_free-modify [] name [] d h = h
is_free-modify [] name (a ∷ []) d h = ground (arith, h, get-delete_entry name a d)
is_free-modify [] name (a ∷ b ∷ q) d h = ground (arith, h, get-delete_entry name a d)
is_free-modify (part ∷ parts) name [] d h = absurd (ground (arith, h))
is_free-modify (part ∷ parts) name (a ∷ []) d h = elim (Option-cases (get_entry part d)) [
  | inl e ↦ ground (arith, h, e)
  | inr (directory inner, e) ↦ ground (
    arith,
    h,
    e,
    eq_iff part a,
    get-set_entry part a (directory (modify_at parts (delete_entry name) inner)) d,
  )
  | inr (contents w, e) ↦ ground (arith, h, e)
]
is_free-modify (part ∷ parts) name (a ∷ b ∷ q) d h = elim (Option-cases (get_entry part d)) [
  | inl e ↦ ground (arith, h, e)
  | inr (directory inner, e) ↦ ground (
    arith,
    h,
    e,
    eq_iff part a,
    get-set_entry part a (directory (modify_at parts (delete_entry name) inner)) d,
    is_free-modify parts name (b ∷ q) inner,
  )
  | inr (contents w, e) ↦ ground (arith, h, e)
]

pub opens-modify :
    (parts : List String) (name : String) (q : List String) (d : Dir)
    → is_free (parts ++ name ∷ []) d ≡ true
    → opens q d ≡ true
    → opens q (modify_at parts (delete_entry name) d) ≡ true
unfolding opens modify_at is_free
opens-modify parts name [] d f h = refl
opens-modify [] name (a ∷ q) d f h = ground (arith, f, h, eq_iff name a, get-delete_entry name a d)
opens-modify (part ∷ parts) name (a ∷ q) d f h = elim (Option-cases (get_entry part d)) [
  | inl e ↦ ground (arith, h, e)
  | inr (contents w, e) ↦ ground (arith, h, e)
  | inr (directory inner, e) ↦ ground (
    arith,
    h,
    e,
    eq_iff part a,
    get-set_entry part a (directory (modify_at parts (delete_entry name) inner)) d,
    opens-modify parts name q inner (sym (is_free-inner part parts name d inner e) ∙ f),
  )
]
