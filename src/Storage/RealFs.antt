-- ===== src/Storage/RealFs.antt =====
-- `RealFS` of pkg/storage/filepath/fs.go. Its mutex is a part of the state, since `VisitDir` calls
-- the visit function while it holds it. An operation that never returns is `none`.
pub mod Deadlock
pub mod LastWins
use tilt_apiserver.Base.{
  ℕ, ◌+◌, ◌%◌, ◌^◌, Bool, true, false, not, String, List, [], ◌∷◌, ◌++◌, Option, none, some, Result,
  ok, err, Error, ◌>>=◌, if◌then◌else◌,
}
use tilt_apiserver.Go.Paths
use tilt_apiserver.Storage.Objects.{Machinery}
use tilt_apiserver.Storage.Version.{set_resource_version}
use tilt_apiserver.Storage.Registry.{Registry}
use tilt_apiserver.Storage.MemoryFs.{has_suffix}
use tilt_apiserver.Storage.Rest.{SelectionPredicate, predicate_matches}

-- What `filepath.Walk` hands to its function: an error, a directory or a file with its name.
pub data Walked : Type 0 where
  failed : Error → Walked
  folder : String → Walked
  file : String → String → Walked

-- The operating system's files: `os` and `ioutil`.
pub record Os : Type 1 where
  pub Disk : Type 0
  pub remove : String → Disk → Result (Unit {0}) × Disk
  -- whether `os.Stat` succeeds
  pub stat : String → Disk → Bool
  pub mkdir_all : String → Disk → Result (Unit {0}) × Disk
  pub read_file : String → Disk → Result String
  pub write_file : String → String → Disk → Result (Unit {0}) × Disk
  -- what `filepath.Walk` visits, in its order
  pub walk : String → Disk → List Walked

pub record RealFs (os : Os) : Type 0 where
  pub disk : os.Disk
  pub rev : ℕ
  pub locked : Bool

module _ {os : Os} where
  -- `fs.mu.Lock()` with `defer fs.mu.Unlock()`: a goroutine that holds the mutex blocks for ever.
  unfoldable pub with_lock :
      {A : Type 0} → (RealFs os → Option (A × RealFs os)) → RealFs os → Option (A × RealFs os)
  with_lock body s = if s.locked then none else (elim (body (record s { locked = true })) [
    | none ↦ none
    | some (a, s') ↦ some (a, record s' { locked = false })
  ])

  unfoldable pub increment_rev : RealFs os → RealFs os
  increment_rev s = record s { rev = (s.rev + 1) % 2 ^ 64 }

module _ (os : Os) where
  unfoldable pub new_real_fs : os.Disk → RealFs os
  new_real_fs disk = record { disk = disk; rev = 1; locked = false }

  unfoldable pub remove : String → RealFs os → Option (Result (Unit {0}) × RealFs os)
  unfolding with_lock increment_rev
  remove p =
      with_lock
        λ s. let (r, d) = os.remove p s.disk in some (r, record (increment_rev s) { disk = d })

  unfoldable pub exists : String → RealFs os → Option (Bool × RealFs os)
  unfolding with_lock
  exists p = with_lock λ s. some (os.stat p s.disk, s)

  unfoldable pub ensure_dir : String → RealFs os → Option (Result (Unit {0}) × RealFs os)
  unfolding with_lock
  ensure_dir dirname = with_lock λ s.
      if os.stat dirname s.disk
      then some (ok tt, s)
      else (let (r, d) = os.mkdir_all dirname s.disk in some (r, record s { disk = d }))

module _ (m : Machinery) (os : Os) where
  -- There is no optimistic concurrency: the version of the caller is not read.
  unfoldable pub write : String → m.Object → ℕ → RealFs os → Option (Result m.Object × RealFs os)
  unfolding with_lock increment_rev
  write p obj storage_version = with_lock λ s.
      let s' = increment_rev s in
      elim (set_resource_version m obj s'.rev) [
        | err e ↦ some (err e, s')
        | ok obj' ↦ elim (m.encode obj') [
          | err e ↦ some (err e, s')
          | ok content ↦
              let (r, d) = os.write_file p content s'.disk in
              some (r >>= λ u. ok obj', record s' { disk = d })
        ]
      ]

  unfoldable pub read : String → RealFs os → Option (Result m.Object × RealFs os)
  unfolding with_lock
  read p s = elim (with_lock (λ t. some (os.read_file (Paths.clean p) t.disk, t)) s) [
    | none ↦ none
    | some (r, s') ↦ some (r >>= m.decode, s')
  ]

  abbrev pub Visit : Type 0
  Visit =
      String → m.Object → List m.Object → RealFs os → Option (Result (List m.Object) × RealFs os)

  -- The walk, under the mutex. A file whose name does not end in ".json" is passed over.
  unfoldable pub visit_walked :
      Visit → List Walked → List m.Object → RealFs os → Option (Result (List m.Object) × RealFs os)
  visit_walked visit [] items s = some (ok items, s)
  visit_walked visit (failed e ∷ walked) items s = some (err e, s)
  visit_walked visit (folder path ∷ walked) items s = visit_walked visit walked items s
  visit_walked visit (file path name ∷ walked) items s =
      let rest = visit_walked visit walked items s in
      let visited : Option (Result (List m.Object) × RealFs os) =
        elim (os.read_file (Paths.clean path) s.disk >>= m.decode) [
          | err e ↦ some (err e, s)
          | ok obj ↦ elim (visit path obj items s) [
            | none ↦ none
            | some (err e, s') ↦ some (err e, s')
            | some (ok items', s') ↦ visit_walked visit walked items' s'
          ]
        ] in
      if has_suffix name ".json" then visited else rest

  unfoldable pub visit_dir :
      String
      → Visit
      → RealFs os
      → Option (Result (record { items : List m.Object; revision : ℕ }) × RealFs os)
  unfolding with_lock visit_walked
  visit_dir dirname visit = with_lock λ s. elim (visit_walked visit (os.walk dirname s.disk) [] s) [
    | none ↦ none
    | some (err e, s') ↦ some (err e, s')
    | some (ok items, s') ↦ some (ok (record { items = items; revision = s'.rev }), s')
  ]

  -- The visit function of `DeleteCollection`, on this file system.
  unfoldable pub remove_matching : (g : Registry m) → SelectionPredicate m g → Visit
  remove_matching g p path obj items s = elim (predicate_matches m g p obj) [
    | err e ↦ some (err e, s)
    | ok false ↦ some (ok items, s)
    | ok true ↦ elim (remove os path s) [
      | none ↦ none
      | some (r, s') ↦ some (ok (items ++ obj ∷ []), s')
    ]
  ]
