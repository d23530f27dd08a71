-- ===== src/Storage/RealFs/Deadlock.antt =====
-- About `DeleteCollection` on the real file system, and the mutex.
use tilt_apiserver.Base.{◌≡◌, refl, true, false, String, List, [], ◌∷◌, none, ok, ◌>>=◌, arith}
use tilt_apiserver.Go.Paths
use tilt_apiserver.Storage.Objects.{Machinery}
use tilt_apiserver.Storage.Registry.{Registry}
use tilt_apiserver.Storage.MemoryFs.{has_suffix}
use tilt_apiserver.Storage.Rest.{SelectionPredicate, predicate_matches}
use tilt_apiserver.Storage.RealFs.{
  Walked, folder, file, Os, RealFs, with_lock, remove, visit_walked, visit_dir, remove_matching,
}

module _ (m : Machinery) (os : Os) (g : Registry m) (p : SelectionPredicate m g) (d : os.Disk) where
  -- The walk comes to an object that matches, and what stands before it are directories, files
  -- that are no objects, and objects that do not match.
  pub data Reaches : List Walked → Type 0 where
    here :
        (path name : String) (walked : List Walked) (obj : m.Object)
        → has_suffix name ".json" ≡ true
        → (os.read_file (Paths.clean path) d >>= m.decode) ≡ ok obj
        → predicate_matches m g p obj ≡ ok true
        → Reaches (file path name ∷ walked)
    past_folder :
        (path : String) {walked : List Walked} → Reaches walked → Reaches (folder path ∷ walked)
    past_other :
        (path name : String) {walked : List Walked}
        → has_suffix name ".json" ≡ false
        → Reaches walked
        → Reaches (file path name ∷ walked)
    past_object :
        (path name : String) {walked : List Walked} (obj : m.Object)
        → has_suffix name ".json" ≡ true
        → (os.read_file (Paths.clean path) d >>= m.decode) ≡ ok obj
        → predicate_matches m g p obj ≡ ok false
        → Reaches walked
        → Reaches (file path name ∷ walked)

  visit_walked_blocks :
      {walked : List Walked} (items : List m.Object) (s : RealFs os)
      → Reaches walked
      → s.locked ≡ true
      → s.disk ≡ d
      → visit_walked m os (remove_matching m os g p) walked items s ≡ none
  unfolding visit_walked remove_matching remove with_lock
  visit_walked_blocks items s (here path name walked obj j r q) held same = ground (arith, j, r, q)
  visit_walked_blocks items s (past_folder path w) held same =
      visit_walked_blocks items s w held same
  visit_walked_blocks items s (past_other path name j w) held same =
      ground (arith, j, visit_walked_blocks items s w held same)
  visit_walked_blocks items s (past_object path name obj j r q w) held same =
      ground (arith, j, r, q, visit_walked_blocks items s w held same)

module _ (m : Machinery) (os : Os) (g : Registry m) (p : SelectionPredicate m g) where
  -- Where the mutex is free and the walk of the directory comes to an object that matches, the visit
  -- of `DeleteCollection` never returns: `VisitDir` holds the mutex that `Remove` waits for.
  pub delete_collection_blocks :
      (dirname : String) (s : RealFs os)
      → s.locked ≡ false
      → Reaches m os g p s.disk (os.walk dirname s.disk)
      → visit_dir m os dirname (remove_matching m os g p) s ≡ none
  unfolding visit_dir with_lock
  delete_collection_blocks dirname s free w =
      ground
        (arith, visit_walked_blocks m os g p s.disk [] (record s { locked = true }) w refl refl)
