-- ===== src/Storage/Rest/Complete.antt =====
-- About what a client finds of an object, by its name and in lists, over a `MemoryFS`.
use mathlib.Core.Path.{subst}
use mathlib.Core.List.{
  Mem, Mem-prop, not-mem-nil, eq-or-mem_of_mem-cons, mem-cons_self, mem-cons_of_mem,
}
use mathlib.Core.Logic.Or
use tilt_apiserver.Base.{
  ◌≡◌, sym, ◌∙◌, true, Bool, String, List, [], ◌∷◌, Option, none, some, ok, err, not_found,
  Result-cases, Bool-cases, inl, inr, arith,
}
use tilt_apiserver.Storage.Objects.{Machinery}
use tilt_apiserver.Storage.Registry.{Registry}
use tilt_apiserver.Storage.Tree.{VersionedData}
use tilt_apiserver.Storage.Tree.Modify.{same_iff}
use tilt_apiserver.Storage.WatchSet.{is_accepted}
use tilt_apiserver.Storage.MemoryFs.{MemoryFs, Found, memory_fs, read_buffer, read, decode_buffer}
use tilt_apiserver.Storage.MemoryFs.Files.{location, view}
use tilt_apiserver.Storage.MemoryFs.Removals.{IsPlaced, file-IsPlaced, read_buffer-there}
use tilt_apiserver.Storage.Contract.Memory.{memory_implements}
use tilt_apiserver.Storage.Rest.Get.{get_absent}
use tilt_apiserver.Storage.Rest.Listing.{delete_collection-list}
use tilt_apiserver.Storage.Rest.{
  FilepathRest, Context, World, ListOptions, ObjectList, SelectionPredicate,
  new_selection_predicate, predicate_matches, object_file_name, get, list, delete_collection,
}
use tilt_apiserver.Storage.Rest.Gathered.{gather, list-gather}
use tilt_apiserver.Storage.Rest.Collection.{
  has_match, delete_collection-IsPlaced, delete_collection-removes,
}
use tilt_apiserver.Storage.Rest.Named.{IsNamed, Covers, read_dir-named}

module _ (m : Machinery) (g : Registry m) where
  -- What `Get` returns is stored at the path of the name.
  get-stored :
      (f : FilepathRest) (ctx : Context) (name : String) (s : MemoryFs) (obj : m.Object)
      → (get m g (memory_fs m) f ctx name s).0 ≡ ok obj
      → (v : VersionedData) × ((view s).files (location (object_file_name f ctx name)) ≡ some v)
        × (decode_buffer m v ≡ ok obj)
  unfolding get read
  get-stored f ctx name s obj h =
      let path = object_file_name f ctx name in
      elim (Result-cases (read_buffer path s).0) [
        | inr (e, q) ↦ absurd (ground (arith, q, h))
        | inl (v, q) ↦ elim (Result-cases (decode_buffer m v)) [
          | inr (e, r) ↦ absurd (ground (arith, q, r, h))
          | inl (o, r) ↦ (v, read_buffer-there path v s q, ground (arith, q, r, h))
        ]
      ]

  module _ (p : SelectionPredicate m g) (f : Found) (obj : m.Object)
      (decoded : decode_buffer m f.raw ≡ ok obj)
      (matched : predicate_matches m g p obj ≡ ok true) where
    gather-keeps :
        (x : Found) (found : List Found)
        → Mem obj (gather m g p found)
        → Mem obj (gather m g p (x ∷ found))
    unfolding gather
    gather-keeps x found h = elim (Result-cases (decode_buffer m x.raw)) [
      | inr (e, q) ↦ subst (Mem obj) (ground (arith, q)) h
      | inl (o, q) ↦ elim (Bool-cases (is_accepted (predicate_matches m g p o))) [
        | inr r ↦ subst (Mem obj) (ground (arith, q, r)) h
        | inl r ↦
            let longer : Mem obj (o ∷ gather m g p found) = mem-cons_of_mem o h in
            subst (Mem obj) (ground (arith, q, r)) longer
      ]
    ]

    -- A match that was found is collected.
    gather-finds : (found : List Found) → Mem f found → Mem obj (gather m g p found)
    unfolding gather
    gather-finds [] h = absurd (not-mem-nil h)
    gather-finds (x ∷ found) h =
        Or.elim Mem-prop (eq-or-mem_of_mem-cons h)
          (λ e.
            let first : Mem obj (obj ∷ gather m g p found) = mem-cons_self in
            subst (Mem obj) (ground (arith, sym e, decoded, matched)) first)
          (λ k. gather-keeps x found (gather-finds found k))

    -- A match that was found is a match of its location.
    has_match-finds :
        (found : List Found) → Mem f found → has_match m g p found (location f.key_path) ≡ true
    unfolding has_match
    has_match-finds [] h = absurd (not-mem-nil h)
    has_match-finds (x ∷ found) h =
        let prop : IsProp (has_match m g p (x ∷ found) (location f.key_path) ≡ true) = hlevel in
        Or.elim prop (eq-or-mem_of_mem-cons h)
          (λ e. ground (
            arith,
            sym e,
            decoded,
            matched,
            (same_iff (location f.key_path) (location f.key_path)).1,
          ))
          (λ k. ground (arith, has_match-finds found k))

module _ (m : Machinery) (g : Registry m) (f : FilepathRest) (rooted : Bool) (parts : List String)
    (lists ctx : Context) (name : String) (options : Option (ListOptions g)) (obj : m.Object)
    (named : IsNamed f rooted parts ctx name) (covers : Covers lists ctx)
    (matched : predicate_matches m g (new_selection_predicate m g options) obj ≡ ok true) where
  -- Over a `MemoryFS`, where the root path is made of plain names and is not "/", and with a plain
  -- namespace, if there is one, and a name that holds no separator: an object
  -- that `Get` returns and that matches the options is in every list that `List` returns in the
  -- same state for the namespace, or for all of them.
  pub get-list :
      (s : MemoryFs) (l : ObjectList m)
      → (get m g (memory_fs m) f ctx name s).0 ≡ ok obj
      → (list m g (memory_fs m) f lists options s).0 ≡ ok l
      → Mem obj l.items
  get-list s l got listed =
      let (v, stored, decoded) = get-stored m g f ctx name s obj got in
      let (found, walked, there, items, version) = list-gather m g f lists options s l listed in
      let at : Found = record { key_path = object_file_name f ctx name; raw = v } in
      subst (Mem obj) (sym items) (
        gather-finds m g (new_selection_predicate m g options) at obj decoded matched found
          (read_dir-named f rooted parts lists ctx name v s named stored found covers walked))

  delete_collection-absent :
      (w : World m (memory_fs m)) (l : ObjectList m)
      → (get m g (memory_fs m) f ctx name w.files).0 ≡ ok obj
      → (delete_collection m g (memory_fs m) f lists options w).0 ≡ ok l
      → (view (delete_collection m g (memory_fs m) f lists options w).1.files).files
          (location (object_file_name f ctx name))
        ≡ none
  delete_collection-absent w l got deleted =
      let (v, stored, decoded) = get-stored m g f ctx name w.files obj got in
      let (found, walked, there, files) =
        delete_collection-removes m g f lists options w l deleted in
      let at : Found = record { key_path = object_file_name f ctx name; raw = v } in
      let hit =
        has_match-finds m g (new_selection_predicate m g options) at obj decoded matched found (
          read_dir-named f rooted parts lists ctx name v w.files named stored found covers
            walked) in
      ground (arith, files (location (object_file_name f ctx name)), hit)

  delete_collection-ready :
      (w : World m (memory_fs m))
      → (get m g (memory_fs m) f ctx name w.files).0 ≡ ok obj
      → IsPlaced
          (object_file_name f ctx name)
          (delete_collection m g (memory_fs m) f lists options w).1.files
  delete_collection-ready w got =
      let path = object_file_name f ctx name in
      let (v, stored, decoded) = get-stored m g f ctx name w.files obj got in
      delete_collection-IsPlaced m g f lists options w path v stored
        (file-IsPlaced path v w.files stored)

  -- Over a `MemoryFS`, where the root path is made of plain names and is not "/", and with a plain
  -- namespace, if there is one, and a name that holds no separator: if an object
  -- that `Get` returns matches the options, then a `DeleteCollection` for its namespace, or for all
  -- of them, that succeeds has it in the list that it returns, and afterwards `Get` finds nothing
  -- under its name.
  pub delete_collection-get :
      (w : World m (memory_fs m)) (l : ObjectList m)
      → (get m g (memory_fs m) f ctx name w.files).0 ≡ ok obj
      → (delete_collection m g (memory_fs m) f lists options w).0 ≡ ok l
      → Mem obj l.items
        × (get m g
            (memory_fs m)
            f
            ctx
            name
            (delete_collection m g (memory_fs m) f lists options w).1.files).0
          ≡ err (not_found name)
  delete_collection-get w l got deleted =
      let t = (delete_collection m g (memory_fs m) f lists options w).1.files in
      let placed = delete_collection-ready w got in
      (
        get-list w.files l got (sym (delete_collection-list m g f lists options w) ∙ deleted),
        get_absent m g (memory_fs m) f (memory_implements m) ctx name t placed.ready
            (delete_collection-absent w l got deleted),
      )
