-- ===== src/Storage/Rest/Gathered.antt =====
-- About the list that `List` returns over a `MemoryFS`.
use tilt_apiserver.Base.{
  ℕ, zero, suc, ◌≡◌, sym, ap, ◌∙◌, true, false, List, [], ◌∷◌, ◌++◌, Option, ok, err, Option-cases,
  Result-cases, inl, inr, arith, if◌then◌else◌,
}
use mathlib.Core.List.{append_assoc, append-nil}
use tilt_apiserver.Storage.Objects.{Machinery}
use tilt_apiserver.Storage.Version.{format_resource_version}
use tilt_apiserver.Storage.Registry.{Registry}
use tilt_apiserver.Storage.WatchSet.{is_accepted}
use tilt_apiserver.Storage.MemoryFs.{
  MemoryFs, Found, memory_fs, visit_found, visit_dir, read_dir, decode_buffer,
}
use tilt_apiserver.Storage.MemoryFs.Files.{view, rev-view}
use tilt_apiserver.Storage.Rest.{
  FilepathRest, Context, ListOptions, ObjectList, SelectionPredicate, new_selection_predicate,
  predicate_matches, collect_matching, finish_list, set_list_version, object_dir_name, list,
}
use tilt_apiserver.Storage.Rest.Listing.{view-read_dir}
use tilt_apiserver.Storage.Rest.Found.{AllThere, read_dir-AllThere}

module _ (m : Machinery) (g : Registry m) (p : SelectionPredicate m g) where
  -- The objects that were found and match, in the order of the walk.
  unfoldable pub gather : List Found → List m.Object
  gather [] = []
  gather (f ∷ found) =
      let rest = gather found in
      elim (decode_buffer m f.raw) [
        | err e ↦ rest
        | ok obj ↦ if is_accepted (predicate_matches m g p obj) then obj ∷ rest else rest
      ]

  visit_found-gather :
      (fr : FilepathRest) (found : List Found) (items out : List m.Object) (s : MemoryFs)
      → (visit_found m (collect_matching m g (memory_fs m) fr p) found items s).0 ≡ ok out
      → out ≡ items ++ gather found
  unfolding visit_found collect_matching gather
  visit_found-gather fr [] items out s e = ground (arith, e, append-nil items)
  visit_found-gather fr (f ∷ found) items out s e = elim (Result-cases (decode_buffer m f.raw)) [
    | inr (x, r) ↦ absurd (ground (arith, r, e))
    | inl (obj, r) ↦ elim (Result-cases (predicate_matches m g p obj)) [
      | inr (x, t) ↦ absurd (ground (arith, r, t, e))
      | inl (true, t) ↦ ground (
        arith,
        r,
        t,
        visit_found-gather fr found (items ++ obj ∷ []) out s (ground (arith, r, t, e)),
        append_assoc items (obj ∷ []) (gather found),
      )
      | inl (false, t) ↦
          ground (arith, r, t, visit_found-gather fr found items out s (ground (arith, r, t, e)))
    ]
  ]

set_list_version-parts :
    (m : Machinery) (rev : ℕ) (items : List m.Object) (l : ObjectList m)
    → set_list_version m rev items ≡ ok l
    → (l.items ≡ items) × (l.resource_version ≡ format_resource_version rev)
unfolding set_list_version
set_list_version-parts m zero items l h = absurd (ground (arith, h))
set_list_version-parts m (suc rev) items l h = (ground (arith, h), ground (arith, h))

module _ (m : Machinery) (g : Registry m) (f : FilepathRest) (ctx : Context)
    (options : Option (ListOptions g)) where
  -- Over a `MemoryFS`, if `List` succeeds, the walk of the directory found files that are stored,
  -- and the list has, for each of them in the order of the walk whose object matches the options,
  -- that object, and nothing else, with the store's revision for its version.
  pub list-gather :
      (s : MemoryFs) (l : ObjectList m)
      → (list m g (memory_fs m) f ctx options s).0 ≡ ok l
      → (found : List Found) × ((read_dir (object_dir_name f ctx) s).0 ≡ ok found)
        × AllThere (view s) found
        × (l.items ≡ gather m g (new_selection_predicate m g options) found)
        × (l.resource_version ≡ format_resource_version (view s).rev)
  unfolding list visit_dir finish_list
  list-gather s l h =
      let dirname = object_dir_name f ctx in
      let p = new_selection_predicate m g options in
      let t = (read_dir dirname s).1 in
      let v : t.rev ≡ (view s).rev = sym (rev-view t) ∙ ap (λ z. z.rev) (view-read_dir dirname s) in
      elim (Option-cases f.list_err) [
        | inr (e, q) ↦ absurd (ground (arith, q, h))
        | inl q ↦ elim (Result-cases (read_dir dirname s).0) [
          | inr (e, r) ↦ absurd (ground (arith, q, r, h))
          | inl (found, r) ↦
              elim (Result-cases
                (visit_found m (collect_matching m g (memory_fs m) f p) found [] t).0) [
                  | inr (e, u) ↦ absurd (ground (arith, q, r, u, h))
                  | inl (items, u) ↦
                      let (same, version) =
                        set_list_version-parts m t.rev items l (ground (arith, q, r, u, h)) in
                      (
                        found,
                        r,
                        read_dir-AllThere dirname found s r,
                        same ∙ visit_found-gather m g p f found [] items t u,
                        version ∙ ap format_resource_version v,
                      )
                ]
        ]
      ]
