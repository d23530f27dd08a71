-- ===== src/Storage/Rest/Found.antt =====
-- About what the walk of a directory of a `MemoryFS` finds.
use tilt_apiserver.Base.{
  ◌≡◌, sym, String, List, [], ◌∷◌, ◌++◌, some, ok, Result-cases, Bool-cases, inl, inr, arith,
}
use mathlib.Core.Path.{subst}
use tilt_apiserver.Go.Paths
use tilt_apiserver.Storage.Tree.{Node, Dir, empty, entry, directory, contents}
use tilt_apiserver.Storage.Spec.{Store}
use tilt_apiserver.Storage.MemoryFs.{
  MemoryFs, Found, has_suffix, read_dir, walk_dir, walk_node, read_buffer, find_dir,
}
use tilt_apiserver.Storage.MemoryFs.Files.{location, view, view-find_dir}
use tilt_apiserver.Storage.MemoryFs.Removals.{read_buffer-there}
use tilt_apiserver.Storage.Rest.Listing.{view-walk_node}

-- The files that a walk has found are in the store, as they were read.
unfoldable pub AllThere : Store → List Found → Type 0
AllThere s [] = Unit
AllThere s (f ∷ found) = (s.files (location f.key_path) ≡ some f.raw) × AllThere s found

AllThere-append :
    (s : Store) (found : List Found) (f : Found)
    → AllThere s found
    → s.files (location f.key_path) ≡ some f.raw
    → AllThere s (found ++ f ∷ [])
unfolding AllThere
AllThere-append s [] f h e = (e, tt)
AllThere-append s (x ∷ found) f (h, hs) e = (h, AllThere-append s found f hs e)

mutual
  unfolding walk_dir walk_node

  walk_dir-AllThere :
      (ancestor : String) (d : Dir) (found out : List Found) (s : MemoryFs)
      → AllThere (view s) found
      → (walk_dir ancestor d found s).0 ≡ ok out
      → AllThere (view s) out
  walk_dir-AllThere ancestor empty found out s h e = subst (AllThere (view s)) (ground (arith, e)) h
  walk_dir-AllThere ancestor (entry key node d) found out s h e =
      let key_path = Paths.join (ancestor ∷ key ∷ []) in
      let node_walk = walk_node key_path key node found s in
      elim (Result-cases node_walk.0) [
        | inr (x, q) ↦ absurd (ground (arith, q, e))
        | inl (found', q) ↦
            let v = view-walk_node key_path key node found s in
            let h' = walk_node-AllThere key_path key node found found' s h q in
            subst (λ t. AllThere t out) v
              (walk_dir-AllThere ancestor d found' out node_walk.1
                (subst (λ t. AllThere t found') (sym v) h') (ground (arith, q, e)))
      ]

  walk_node-AllThere :
      (key_path key : String) (node : Node) (found out : List Found) (s : MemoryFs)
      → AllThere (view s) found
      → (walk_node key_path key node found s).0 ≡ ok out
      → AllThere (view s) out
  walk_node-AllThere key_path key (directory inner) found out s h e =
      walk_dir-AllThere key_path inner found out s h e
  walk_node-AllThere key_path key (contents v) found out s h e =
      elim (Bool-cases (has_suffix key ".json")) [
        | inr q ↦ subst (AllThere (view s)) (ground (arith, q, e)) h
        | inl q ↦ elim (Result-cases (read_buffer key_path s).0) [
          | inr (x, r) ↦ absurd (ground (arith, q, r, e))
          | inl (raw, r) ↦ subst (AllThere (view s)) (ground (arith, q, r, e)) (
              AllThere-append (view s) found (record { key_path = key_path; raw = raw }) h
                (read_buffer-there key_path raw s r))
        ]
      ]

pub read_dir-AllThere :
    (dirname : String) (found : List Found) (s : MemoryFs)
    → (read_dir dirname s).0 ≡ ok found
    → AllThere (view s) found
unfolding read_dir AllThere
read_dir-AllThere dirname found s e = elim (Result-cases (find_dir dirname s).0) [
  | inr (x, q) ↦ absurd (ground (arith, q, e))
  | inl (d, q) ↦
      subst (λ t. AllThere t found) (view-find_dir dirname s)
        (walk_dir-AllThere dirname d [] found (find_dir dirname s).1 tt (ground (arith, q, e)))
]
