-- ===== src/Storage/Rest/Listing.antt =====
-- About the lists that `List` and `DeleteCollection` return over a `MemoryFS`.
use mathlib.Core.Path.{subst}
use tilt_apiserver.Base.{
  ℕ, zero, suc, ◌≡◌, refl, true, false, String, List, [], ◌∷◌, ◌++◌, Option, ok, Result-cases,
  Option-cases, inl, inr, arith,
}
use tilt_apiserver.Storage.Objects.{Machinery}
use tilt_apiserver.Storage.Registry.{Registry}
use tilt_apiserver.Go.Paths
use tilt_apiserver.Storage.Tree.{Dir, Node, empty, entry, directory, contents}
use tilt_apiserver.Storage.MemoryFs.{
  MemoryFs, Found, memory_fs, visit_found, visit_dir, read_dir, walk_dir, walk_node, read_buffer,
  find_dir, decode_buffer, remove,
}
use tilt_apiserver.Storage.MemoryFs.Files.{view, view-find_dir}
use tilt_apiserver.Storage.Rest.{
  FilepathRest, Context, World, ListOptions, ObjectList, SelectionPredicate,
  new_selection_predicate, predicate_matches, collect_matching, remove_matching, finish_list,
  set_list_version, object_dir_name, list, delete_collection,
}

module _ (m : Machinery) (g : Registry m) where
  -- Every object of the list matches.
  unfoldable pub AllMatch : SelectionPredicate m g → List m.Object → Type 0
  AllMatch p [] = Unit
  AllMatch p (obj ∷ items) = (predicate_matches m g p obj ≡ ok true) × AllMatch p items

  AllMatch-append :
      (p : SelectionPredicate m g) (items : List m.Object) (obj : m.Object)
      → AllMatch p items
      → predicate_matches m g p obj ≡ ok true
      → AllMatch p (items ++ obj ∷ [])
  unfolding AllMatch
  AllMatch-append p [] obj h e = (e, tt)
  AllMatch-append p (o ∷ items) obj (h, hs) e = (h, AllMatch-append p items obj hs e)

module _ (m : Machinery) (g : Registry m) (f : FilepathRest) (p : SelectionPredicate m g) where
  visit_found-AllMatch :
      (found : List Found) (items out : List m.Object) (s : MemoryFs)
      → AllMatch m g p items
      → (visit_found m (collect_matching m g (memory_fs m) f p) found items s).0 ≡ ok out
      → AllMatch m g p out
  unfolding visit_found collect_matching
  visit_found-AllMatch [] items out s h e = subst (AllMatch m g p) (ground (arith, e)) h
  visit_found-AllMatch (x ∷ found) items out s h e = elim (Result-cases (decode_buffer m x.raw)) [
    | inr (y, q) ↦ absurd (ground (arith, q, e))
    | inl (obj, q) ↦ elim (Result-cases (predicate_matches m g p obj)) [
      | inr (y, r) ↦ absurd (ground (arith, q, r, e))
      | inl (true, r) ↦
          visit_found-AllMatch found (items ++ obj ∷ []) out s (AllMatch-append m g p items obj h r)
            (ground (arith, q, r, e))
      | inl (false, r) ↦ visit_found-AllMatch found items out s h (ground (arith, q, r, e))
    ]
  ]

  -- Removals of files while the walk's findings are visited do not change what is collected.
  visit_found-same :
      (found : List Found) (items : List m.Object) (s t : MemoryFs)
      → (visit_found m (remove_matching m g (memory_fs m) f p) found items s).0
        ≡ (visit_found m (collect_matching m g (memory_fs m) f p) found items t).0
  unfolding visit_found collect_matching remove_matching
  visit_found-same [] items s t = refl
  visit_found-same (x ∷ found) items s t = elim (Result-cases (decode_buffer m x.raw)) [
    | inr (e, q) ↦ ground (arith, q)
    | inl (obj, q) ↦ elim (Result-cases (predicate_matches m g p obj)) [
      | inr (e, r) ↦ ground (arith, q, r)
      | inl (true, r) ↦
          ground (arith, q, r, visit_found-same found (items ++ obj ∷ []) (remove x.key_path s).1 t)
      | inl (false, r) ↦ ground (arith, q, r, visit_found-same found items s t)
    ]
  ]

  -- What is left of the files after a visit that collects.
  visit_found-files :
      (found : List Found) (items : List m.Object) (s : MemoryFs)
      → (visit_found m (collect_matching m g (memory_fs m) f p) found items s).1 ≡ s
  unfolding visit_found collect_matching
  visit_found-files [] items s = refl
  visit_found-files (x ∷ found) items s = elim (Result-cases (decode_buffer m x.raw)) [
    | inr (e, q) ↦ ground (arith, q)
    | inl (obj, q) ↦ elim (Result-cases (predicate_matches m g p obj)) [
      | inr (e, r) ↦ ground (arith, q, r)
      | inl (true, r) ↦ ground (arith, q, r, visit_found-files found (items ++ obj ∷ []) s)
      | inl (false, r) ↦ ground (arith, q, r, visit_found-files found items s)
    ]
  ]

-- A walk leaves the view of the files, and the revision.
pub view-read_buffer : (p : String) (s : MemoryFs) → view (read_buffer p s).1 ≡ view s
unfolding read_buffer
view-read_buffer p s = ground (arith, view-find_dir (Paths.dir p) s)

mutual
  unfolding walk_dir walk_node

  view-walk_dir :
      (ancestor : String) (d : Dir) (found : List Found) (s : MemoryFs)
      → view (walk_dir ancestor d found s).1 ≡ view s
  view-walk_dir ancestor empty found s = refl
  view-walk_dir ancestor (entry key node d) found s =
      let key_path = Paths.join (ancestor ∷ key ∷ []) in
      let h = view-walk_node key_path key node found s in
      elim (Result-cases (walk_node key_path key node found s).0) [
        | inr (e, q) ↦ ground (arith, q, h)
        | inl (found', q) ↦
            ground
              (arith, q, h, view-walk_dir ancestor d found' (walk_node key_path key node found s).1)
      ]

  pub view-walk_node :
      (key_path key : String) (node : Node) (found : List Found) (s : MemoryFs)
      → view (walk_node key_path key node found s).1 ≡ view s
  view-walk_node key_path key (directory inner) found s = view-walk_dir key_path inner found s
  view-walk_node key_path key (contents v) found s = ground (arith, view-read_buffer key_path s)

pub view-read_dir : (dirname : String) (s : MemoryFs) → view (read_dir dirname s).1 ≡ view s
unfolding read_dir
view-read_dir dirname s = elim (Result-cases (find_dir dirname s).0) [
  | inr (e, q) ↦ ground (arith, q, view-find_dir dirname s)
  | inl (d, q) ↦
      ground (arith, q, view-find_dir dirname s, view-walk_dir dirname d [] (find_dir dirname s).1)
]

set_list_version-items :
    (m : Machinery) (rev : ℕ) (items : List m.Object) (l : ObjectList m)
    → set_list_version m rev items ≡ ok l
    → items ≡ l.items
unfolding set_list_version
set_list_version-items m zero items l h = absurd (ground (arith, h))
set_list_version-items m (suc rev) items l h = ground (arith, h)

module _ (m : Machinery) (g : Registry m) (f : FilepathRest) (ctx : Context)
    (options : Option (ListOptions g)) where
  -- `List` leaves every file, its version and the revision as they were, whatever it returns.
  pub view-list : (s : MemoryFs) → view (list m g (memory_fs m) f ctx options s).1 ≡ view s
  unfolding list visit_dir
  view-list s =
      let dirname = object_dir_name f ctx in
      let p = new_selection_predicate m g options in
      let t = (read_dir dirname s).1 in
      let h = view-read_dir dirname s in
      elim (Option-cases f.list_err) [
        | inr (e, q) ↦ ground (arith, q)
        | inl q ↦ elim (Result-cases (read_dir dirname s).0) [
          | inr (e, r) ↦ ground (arith, q, r, h)
          | inl (found, r) ↦ ground (arith, q, r, h, visit_found-files m g f p found [] t)
        ]
      ]

  -- `List` returns only objects that match the options.
  pub list-AllMatch :
      (s : MemoryFs) (l : ObjectList m)
      → (list m g (memory_fs m) f ctx options s).0 ≡ ok l
      → AllMatch m g (new_selection_predicate m g options) l.items
  unfolding list visit_dir finish_list AllMatch
  list-AllMatch s l h =
      let dirname = object_dir_name f ctx in
      let p = new_selection_predicate m g options in
      let t = (read_dir dirname s).1 in
      elim (Option-cases f.list_err) [
        | inr (e, q) ↦ absurd (ground (arith, q, h))
        | inl q ↦ elim (Result-cases (read_dir dirname s).0) [
          | inr (e, r) ↦ absurd (ground (arith, q, r, h))
          | inl (found, r) ↦
              elim (Result-cases
                (visit_found m (collect_matching m g (memory_fs m) f p) found [] t).0) [
                  | inr (e, u) ↦ absurd (ground (arith, q, r, u, h))
                  | inl (items, u) ↦
                      subst (AllMatch m g p)
                        (set_list_version-items m t.rev items l (ground (arith, q, r, u, h)))
                        (visit_found-AllMatch m g f p found [] items t tt u)
                ]
        ]
      ]

  -- `DeleteCollection` returns the very list that `List` returns in the same state.
  pub delete_collection-list :
      (w : World m (memory_fs m))
      → (delete_collection m g (memory_fs m) f ctx options w).0
        ≡ (list m g (memory_fs m) f ctx options w.files).0
  unfolding delete_collection list visit_dir
  delete_collection-list w = elim (Option-cases f.list_err) [
    | inr (e, q) ↦ ground (arith, q)
    | inl q ↦ elim (Result-cases (read_dir (object_dir_name f ctx) w.files).0) [
      | inr (e, r) ↦ ground (arith, q, r)
      | inl (found, r) ↦ ground (
        arith,
        q,
        r,
        visit_found-same m g f (new_selection_predicate m g options) found []
            (read_dir (object_dir_name f ctx) w.files).1
            (read_dir (object_dir_name f ctx) w.files).1,
      )
    ]
  ]
