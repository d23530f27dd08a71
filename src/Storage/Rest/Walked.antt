-- ===== src/Storage/Rest/Walked.antt =====
-- About what the walk of a directory goes through.
use mathlib.Core.Path.{subst}
use mathlib.Core.List.{Mem, mem-append_left, mem-append_right, mem-cons_self, append_assoc}
use tilt_apiserver.Base.{
  ◌≡◌, sym, ◌∙◌, Bool, true, false, String, ◌=~◌, eq_iff, eq_refl, List, [], ◌∷◌, ◌++◌, some, ok,
  Result-cases, Bool-cases, inl, inr, arith,
}
use tilt_apiserver.Go.Paths
use tilt_apiserver.Go.Paths.{render, join, split}
use tilt_apiserver.Go.Paths.Parts.{all_plain}
use tilt_apiserver.Go.Paths.Plain.{join-render}
use tilt_apiserver.Storage.Tree.{
  VersionedData, Node, Dir, empty, entry, directory, contents, get_entry, file_at, ensure_parts,
}
use tilt_apiserver.Storage.Tree.Ensure.{child, file_at_empty}
use tilt_apiserver.Storage.MemoryFs.{
  MemoryFs, Found, has_suffix, parts_of, read_dir, walk_dir, walk_node, read_buffer, find_dir,
}
use tilt_apiserver.Storage.MemoryFs.Files.{view, view-find_dir}
use tilt_apiserver.Storage.MemoryFs.Below.{
  is_json, IsBelow, IsBelow-same, IsBelow-next, location-render,
}
use tilt_apiserver.Storage.MemoryFs.Removals.{read_buffer-there}
use tilt_apiserver.Storage.Rest.Listing.{view-walk_node}

-- What a walk has found stays found.
walk_dir-keeps :
    (ancestor : String) (d : Dir) (f : Found) (found out : List Found) (s : MemoryFs)
    → Mem f found
    → (walk_dir ancestor d found s).0 ≡ ok out
    → Mem f out
unfolding walk_dir walk_node
walk_dir-keeps ancestor empty f found out s h e = subst (Mem f) (ground (arith, e)) h
walk_dir-keeps ancestor (entry key (directory inner) d) f found out s h e =
    let key_path = Paths.join (ancestor ∷ key ∷ []) in
    let walk = walk_dir key_path inner found s in
    elim (Result-cases walk.0) [
      | inr (x, q) ↦ absurd (ground (arith, q, e))
      | inl (found', q) ↦
          walk_dir-keeps ancestor d f found' out walk.1
            (walk_dir-keeps key_path inner f found found' s h q) (ground (arith, q, e))
    ]
walk_dir-keeps ancestor (entry key (contents v) d) f found out s h e =
    let key_path = Paths.join (ancestor ∷ key ∷ []) in
    elim (Bool-cases (has_suffix key ".json")) [
      | inr q ↦ walk_dir-keeps ancestor d f found out s h (ground (arith, q, e))
      | inl q ↦ elim (Result-cases (read_buffer key_path s).0) [
        | inr (x, r) ↦ absurd (ground (arith, q, r, e))
        | inl (raw, r) ↦
            let f' : Found = record { key_path = key_path; raw = raw } in
            walk_dir-keeps ancestor d f (found ++ f' ∷ []) out (read_buffer key_path s).1
              (mem-append_left (f' ∷ []) h) (ground (arith, q, r, e))
      ]
    ]

-- The walk of a directory is that of its first entry, and then that of the others.
walk_dir-entry :
    (ancestor key : String) (node : Node) (d : Dir) (found out : List Found) (s : MemoryFs)
    → (walk_dir ancestor (entry key node d) found s).0 ≡ ok out
    → (between : List Found) × ((walk_node (Paths.join (ancestor ∷ key ∷ [])) key node found s).0
        ≡ ok between)
      × ((walk_dir ancestor d between
            (walk_node (Paths.join (ancestor ∷ key ∷ [])) key node found s).1).0
          ≡ ok out)
unfolding walk_dir
walk_dir-entry ancestor key node d found out s e =
    let key_path = Paths.join (ancestor ∷ key ∷ []) in
    elim (Result-cases (walk_node key_path key node found s).0) [
      | inr (x, q) ↦ absurd (ground (arith, q, e))
      | inl (between, q) ↦ (between, q, ground (arith, q, e))
    ]

file_at_other :
    (key name : String) (names : List String) (node : Node) (d : Dir)
    → (key =~ name) ≡ false
    → file_at (name ∷ names) (entry key node d) ≡ file_at (name ∷ names) d
unfolding file_at get_entry
file_at_other key name [] node d h = ground (arith, h)
file_at_other key name (next ∷ names) node d h = ground (arith, h)

file_at_entry :
    (key name : String) (names : List String) (node : Node) (d : Dir)
    → (key =~ name) ≡ true
    → file_at (name ∷ names) (entry key node d) ≡ file_at (name ∷ names) (entry name node empty)
unfolding file_at get_entry
file_at_entry key name [] node d h = ground (arith, h, eq_refl name)
file_at_entry key name (next ∷ names) node d h = ground (arith, h, eq_refl name)

abbrev pub found_at : Bool → List String → VersionedData → Found
found_at rooted names v = record { key_path = render rooted names; raw = v }

mutual
  unfolding walk_dir walk_node all_plain is_json file_at get_entry

  -- A walk finds each object's file that is stored below its directory, as it is stored.
  walk_dir-finds :
      (rooted : Bool) (parts names : List String) (d : Dir) (v : VersionedData)
      (found out : List Found) (s : MemoryFs)
      → IsBelow rooted parts names v s
      → file_at names d ≡ some v
      → (walk_dir (render rooted parts) d found s).0 ≡ ok out
      → Mem (found_at rooted (parts ++ names) v) out
  walk_dir-finds rooted parts [] d v found out s h f e = absurd (ground (arith, h.json))
  walk_dir-finds rooted parts (name ∷ names) empty v found out s h f e =
      absurd (ground (arith, f, file_at_empty (name ∷ names)))
  walk_dir-finds rooted parts (name ∷ names) (entry key node d) v found out s h f e =
      let p = render rooted parts in
      let (between, q, r) = walk_dir-entry p key node d found out s e in
      let t = (walk_node (join (p ∷ key ∷ [])) key node found s).1 in
      elim (Bool-cases (key =~ name)) [
        | inr o ↦
            walk_dir-finds rooted parts (name ∷ names) d v between out t
              (IsBelow-same rooted parts (name ∷ names) v s t
                (view-walk_node (join (p ∷ key ∷ [])) key node found s) h)
              (sym (file_at_other key name names node d o) ∙ f) r
        | inl o ↦
            let same : key ≡ name = (eq_iff key name).0 o in
            let here =
              subst (λ k. (walk_node (join (p ∷ k ∷ [])) k node found s).0 ≡ ok between) same q in
            let plain : all_plain (name ∷ []) ≡ true = ground (arith, h.names_plain) in
            walk_dir-keeps p d (found_at rooted (parts ++ name ∷ names) v) between out t
              (walk_node-finds rooted parts names name node v found between s h
                (sym (file_at_entry key name names node d o) ∙ f)
                (subst (λ k. (walk_node k name node found s).0 ≡ ok between)
                  (join-render rooted parts (name ∷ []) h.parts_plain plain) here))
              r
      ]

  walk_node-finds :
      (rooted : Bool) (parts names : List String) (name : String) (node : Node) (v : VersionedData)
      (found out : List Found) (s : MemoryFs)
      → IsBelow rooted parts (name ∷ names) v s
      → file_at (name ∷ names) (entry name node empty) ≡ some v
      → (walk_node (render rooted (parts ++ name ∷ [])) name node found s).0 ≡ ok out
      → Mem (found_at rooted (parts ++ name ∷ names) v) out
  walk_node-finds rooted parts [] name (directory inner) v found out s h f e =
      absurd (ground (arith, f, eq_refl name))
  walk_node-finds rooted parts (next ∷ names) name (directory inner) v found out s h f e =
      subst (λ q. Mem (found_at rooted q v) out) (append_assoc parts (name ∷ []) (next ∷ names))
        (walk_dir-finds rooted (parts ++ name ∷ []) (next ∷ names) inner v found out s
          (IsBelow-next rooted parts names name next v s h) (ground (arith, f, eq_refl name)) e)
  walk_node-finds rooted parts [] name (contents u) v found out s h f e =
      let p = render rooted (parts ++ name ∷ []) in
      let at = location-render rooted parts name h.parts_plain (ground (arith, h.names_plain)) in
      elim (Result-cases (read_buffer p s).0) [
        | inr (x, r) ↦ absurd (ground (arith, h.json, r, e))
        | inl (raw, r) ↦
            let same : raw ≡ v = ground (arith, read_buffer-there p raw s r, at, h.stored) in
            let f' = found_at rooted (parts ++ name ∷ []) v in
            let last : (found ++ f' ∷ []) ≡ out = ground (arith, h.json, r, e, same) in
            subst (Mem f') last (mem-append_right found (mem-cons_self {l = []}))
      ]
  walk_node-finds rooted parts (next ∷ names) name (contents u) v found out s h f e =
      absurd (ground (arith, f, eq_refl name))

-- A file below the directory that was found is the file of its location.
found_dir-files :
    (parts names : List String) (name : String) (d inner : Dir)
    → (ensure_parts parts d).0 ≡ ok inner
    → file_at (name ∷ names) inner ≡ file_at (parts ++ name ∷ names) d
unfolding file_at ensure_parts
found_dir-files [] names name d inner h = ground arith
found_dir-files (part ∷ []) names name d inner h = ground (
  arith,
  found_dir-files [] names name (child (get_entry part d)) inner,
  file_at_empty (name ∷ names),
)
found_dir-files (part ∷ next ∷ parts) names name d inner h = ground (
  arith,
  found_dir-files (next ∷ parts) names name (child (get_entry part d)) inner,
  file_at_empty (next ∷ parts ++ name ∷ names),
)

-- `readDir` finds each object's file that is stored below its directory.
pub read_dir-finds :
    (rooted : Bool) (parts names : List String) (v : VersionedData) (out : List Found)
    (s : MemoryFs)
    → IsBelow rooted parts names v s
    → (read_dir (render rooted parts) s).0 ≡ ok out
    → Mem (found_at rooted (parts ++ names) v) out
unfolding read_dir is_json view
read_dir-finds rooted parts [] v out s h e = absurd (ground (arith, h.json))
read_dir-finds rooted parts (name ∷ names) v out s h e =
    let p = render rooted parts in
    elim (Result-cases (find_dir p s).0) [
      | inr (x, q) ↦ absurd (ground (arith, q, e))
      | inl (d, q) ↦
          walk_dir-finds rooted parts (name ∷ names) d v [] out (find_dir p s).1
            (IsBelow-same rooted parts (name ∷ names) v s (find_dir p s).1 (view-find_dir p s) h)
            (unfold find_dir in found_dir-files (parts_of p) names name s.dir d q ∙ h.stored)
            (ground (arith, q, e))
    ]
