-- ===== src/Storage/Rest/Collection.antt =====
-- About the files that `DeleteCollection` takes away from a `MemoryFS`.
use tilt_apiserver.Base.{
  ◌≡◌, refl, sym, Bool, true, false, ◌&&◌, ◌||◌, String, List, [], ◌∷◌, ◌++◌, Option, none, some,
  ok, Option-cases, Result-cases, inl, inr, arith, ◌>>=◌, if◌then◌else◌,
}
use mathlib.Core.Path.{subst}
use tilt_apiserver.Storage.Objects.{Machinery}
use tilt_apiserver.Storage.Registry.{Registry}
use tilt_apiserver.Storage.Tree.{VersionedData}
use tilt_apiserver.Storage.Tree.Modify.{same}
use tilt_apiserver.Storage.WatchSet.{is_accepted}
use tilt_apiserver.Storage.MemoryFs.{
  MemoryFs, Found, memory_fs, visit_found, visit_dir, read_dir, decode_buffer, remove,
}
use tilt_apiserver.Storage.MemoryFs.Files.{location, view}
use tilt_apiserver.Storage.MemoryFs.Removals.{
  IsPlaced, file-IsPlaced, remove-IsPlaced, files-remove,
}
use tilt_apiserver.Storage.Rest.{
  FilepathRest, Context, World, ListOptions, ObjectList, SelectionPredicate,
  new_selection_predicate, predicate_matches, remove_matching, finish_list, object_dir_name,
  delete_collection,
}
use tilt_apiserver.Storage.Rest.Listing.{view-read_dir}
use tilt_apiserver.Storage.Rest.Found.{AllThere, read_dir-AllThere}

unfoldable AllPlaced : List Found → MemoryFs → Type 0
AllPlaced [] s = Unit
AllPlaced (f ∷ found) s = IsPlaced f.key_path s × AllPlaced found s

AllThere-AllPlaced :
    (found : List Found) (s : MemoryFs) → AllThere (view s) found → AllPlaced found s
unfolding AllThere AllPlaced
AllThere-AllPlaced [] s h = tt
AllThere-AllPlaced (f ∷ found) s (h, hs) =
    (file-IsPlaced f.key_path f.raw s h, AllThere-AllPlaced found s hs)

AllPlaced-remove :
    (p : String) (found : List Found) (s : MemoryFs)
    → IsPlaced p s
    → AllPlaced found s
    → AllPlaced found (remove p s).1
unfolding AllPlaced
AllPlaced-remove p [] s h k = tt
AllPlaced-remove p (f ∷ found) s h (k, ks) =
    (remove-IsPlaced p f.key_path s h k, AllPlaced-remove p found s h ks)

module _ (m : Machinery) (g : Registry m) (p : SelectionPredicate m g) where
  -- Whether an object was found that matches.
  abbrev pub is_matched : Found → Bool
  is_matched f = is_accepted (decode_buffer m f.raw >>= predicate_matches m g p)

  -- Whether the location is that of a match.
  unfoldable pub has_match : List Found → List String → Bool
  has_match [] q = false
  has_match (f ∷ found) q = is_matched f && same (location f.key_path) q || has_match found q

  module _ (fr : FilepathRest) where
    visit_found-removes :
        (found : List Found) (items out : List m.Object) (s : MemoryFs) (q : List String)
        → AllPlaced found s
        → (visit_found m (remove_matching m g (memory_fs m) fr p) found items s).0 ≡ ok out
        → (view (visit_found m (remove_matching m g (memory_fs m) fr p) found items s).1).files q
          ≡ (if has_match found q then none else (view s).files q)
    unfolding visit_found remove_matching has_match AllPlaced
    visit_found-removes [] items out s q h e = refl
    visit_found-removes (f ∷ found) items out s q (h, hs) e =
        elim (Result-cases (decode_buffer m f.raw)) [
          | inr (x, r) ↦ absurd (ground (arith, r, e))
          | inl (obj, r) ↦ elim (Result-cases (predicate_matches m g p obj)) [
            | inr (x, t) ↦ absurd (ground (arith, r, t, e))
            | inl (true, t) ↦ ground (
              arith,
              r,
              t,
              files-remove f.key_path s q h,
              visit_found-removes found (items ++ obj ∷ []) out (remove f.key_path s).1 q
                  (AllPlaced-remove f.key_path found s h hs) (ground (arith, r, t, e)),
            )
            | inl (false, t) ↦
                ground (
                  arith,
                  r,
                  t,
                  visit_found-removes found items out s q hs (ground (arith, r, t, e)),
                )
          ]
        ]

module _ (m : Machinery) (g : Registry m) (fr : FilepathRest) (p : SelectionPredicate m g) where
  -- A path that is placed stays so while matches are removed.
  visit_found-IsPlaced :
      (found : List Found) (items : List m.Object) (s : MemoryFs) (q : String)
      → AllPlaced found s
      → IsPlaced q s
      → IsPlaced q (visit_found m (remove_matching m g (memory_fs m) fr p) found items s).1
  unfolding visit_found remove_matching AllPlaced
  visit_found-IsPlaced [] items s q h k = k
  visit_found-IsPlaced (f ∷ found) items s q (h, hs) k =
      elim (Result-cases (decode_buffer m f.raw)) [
        | inr (x, r) ↦ subst (IsPlaced q) (ground (arith, r)) k
        | inl (obj, r) ↦ elim (Result-cases (predicate_matches m g p obj)) [
          | inr (x, t) ↦ subst (IsPlaced q) (ground (arith, r, t)) k
          | inl (true, t) ↦ subst (IsPlaced q) (ground (arith, r, t)) (
              visit_found-IsPlaced found (items ++ obj ∷ []) (remove f.key_path s).1 q
                (AllPlaced-remove f.key_path found s h hs) (remove-IsPlaced f.key_path q s h k))
          | inl (false, t) ↦
              subst (IsPlaced q) (ground (arith, r, t)) (visit_found-IsPlaced found items s q hs k)
        ]
      ]

module _ (m : Machinery) (g : Registry m) (f : FilepathRest) (ctx : Context)
    (options : Option (ListOptions g)) where
  -- The path of a file stays placed.
  pub delete_collection-IsPlaced :
      (w : World m (memory_fs m)) (q : String) (v : VersionedData)
      → (view w.files).files (location q) ≡ some v
      → IsPlaced q w.files
      → IsPlaced q (delete_collection m g (memory_fs m) f ctx options w).1.files
  unfolding delete_collection visit_dir
  delete_collection-IsPlaced w q v stored placed =
      let dirname = object_dir_name f ctx in
      let p = new_selection_predicate m g options in
      let t = (read_dir dirname w.files).1 in
      let same_view = view-read_dir dirname w.files in
      let still : IsPlaced q t =
        file-IsPlaced q v t (subst (λ z. z.files (location q) ≡ some v) (sym same_view) stored) in
      elim (Option-cases f.list_err) [
        | inr (e, o) ↦ subst (IsPlaced q) (ground (arith, o)) placed
        | inl o ↦ elim (Result-cases (read_dir dirname w.files).0) [
          | inr (e, r) ↦ subst (IsPlaced q) (ground (arith, o, r)) still
          | inl (found, r) ↦
              let there = read_dir-AllThere dirname found w.files r in
              let all =
                AllThere-AllPlaced found t (subst (λ z. AllThere z found) (sym same_view) there) in
              subst (IsPlaced q) (ground (arith, o, r))
                (visit_found-IsPlaced m g f p found [] t q all still)
        ]
      ]

  -- Over a `MemoryFS`, if `DeleteCollection` succeeds, then afterwards there is no file where the
  -- walk of the directory found an object that matches the options, and every other file, with its
  -- version, is as it was before; and what the walk found was what was stored there.
  pub delete_collection-removes :
      (w : World m (memory_fs m)) (l : ObjectList m)
      → (delete_collection m g (memory_fs m) f ctx options w).0 ≡ ok l
      → (found : List Found) × ((read_dir (object_dir_name f ctx) w.files).0 ≡ ok found)
        × AllThere (view w.files) found
        × ((q : List String)
            → (view (delete_collection m g (memory_fs m) f ctx options w).1.files).files q ≡ (
                if has_match m g (new_selection_predicate m g options) found q
                then none
                else (view w.files).files q))
  unfolding delete_collection visit_dir finish_list
  delete_collection-removes w l h =
      let dirname = object_dir_name f ctx in
      let p = new_selection_predicate m g options in
      let t = (read_dir dirname w.files).1 in
      let v = view-read_dir dirname w.files in
      elim (Option-cases f.list_err) [
        | inr (e, q) ↦ absurd (ground (arith, q, h))
        | inl q ↦ elim (Result-cases (read_dir dirname w.files).0) [
          | inr (e, r) ↦ absurd (ground (arith, q, r, h))
          | inl (found, r) ↦
              elim (Result-cases
                (visit_found m (remove_matching m g (memory_fs m) f p) found [] t).0) [
                  | inr (e, u) ↦ absurd (ground (arith, q, r, u, h))
                  | inl (items, u) ↦
                      let there = read_dir-AllThere dirname found w.files r in
                      let placed =
                        AllThere-AllPlaced found t (subst (λ z. AllThere z found) (sym v) there) in
                      (
                        found,
                        r,
                        there,
                        λ loc. ground (
                          arith,
                          q,
                          r,
                          v,
                          visit_found-removes m g p f found [] items t loc placed u,
                        ),
                      )
                ]
        ]
      ]
