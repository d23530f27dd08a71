-- ===== src/Storage/MemoryFs/Versions.antt =====
-- About the versions of the files of a `MemoryFS`, over every run of its methods.
use tilt_apiserver.Base.{ℕ, suc, ◌^◌, ◌≤◌, ◌<◌, ◌≡◌, ap, String, arith}
use tilt_apiserver.Storage.Objects.{Machinery}
use tilt_apiserver.Storage.Tree.Ensure.{file_at_empty}
use tilt_apiserver.Storage.Spec.{Store}
use tilt_apiserver.Storage.Spec.Versions.{
  HasVersions, spec_write-Writes, Writes-HasVersions, spec_remove-HasVersions,
}
use tilt_apiserver.Storage.MemoryFs.{
  MemoryFs, new_memory_fs, remove, exists, ensure_dir, read, write, read_dir,
}
use tilt_apiserver.Storage.MemoryFs.Files.{location, view, IsReady, view-find_dir}
use tilt_apiserver.Storage.Rest.Listing.{view-read_dir}
use tilt_apiserver.Storage.MemoryFs.Refines.{
  write_refines, remove_refines, exists_refines, read_buffer_refines,
}

module _ (m : Machinery) where
  -- A run of the methods from a state, with the number of its writes. `walked` is the walk of
  -- `VisitDir`, which calls its visitor after the walk: what the visitor calls are further steps.
  pub data RunFrom (start : MemoryFs) : ℕ → MemoryFs → Type 0 where
    fresh : RunFrom start 0 start
    wrote :
        {n : ℕ} {fs : MemoryFs} (p : String) (obj : m.Object) (version : ℕ)
        → IsReady p fs
        → RunFrom start n fs
        → RunFrom start (suc n) (write m p obj version fs).1
    removed :
        {n : ℕ} {fs : MemoryFs} (p : String)
        → IsReady p fs
        → RunFrom start n fs
        → RunFrom start n (remove p fs).1
    tested :
        {n : ℕ} {fs : MemoryFs} (p : String)
        → IsReady p fs
        → RunFrom start n fs
        → RunFrom start n (exists p fs).1
    looked :
        {n : ℕ} {fs : MemoryFs} (p : String)
        → IsReady p fs
        → RunFrom start n fs
        → RunFrom start n (read m p fs).1
    ensured :
        {n : ℕ} {fs : MemoryFs} (dirname : String)
        → RunFrom start n fs
        → RunFrom start n (ensure_dir dirname fs).1
    walked :
        {n : ℕ} {fs : MemoryFs} (dirname : String)
        → RunFrom start n fs
        → RunFrom start n (read_dir dirname fs).1

  -- A run from the new file system.
  abbrev pub Run : ℕ → MemoryFs → Type 0
  Run = RunFrom new_memory_fs

  abbrev pub IsNumbered : ℕ → Store → Type 0
  IsNumbered n s = HasVersions s × (s.rev ≤ suc n)

  new-IsNumbered : IsNumbered 0 (view new_memory_fs)
  unfolding view new_memory_fs
  new-IsNumbered = (
    record {
      positive = λ q v e. ground (arith, e, file_at_empty q);
      bounded = λ q v e. ground (arith, e, file_at_empty q);
      distinct = λ q r v w e f n. ground (arith, e, file_at_empty q);
    },
    omega arith,
  )

  pub view-ensure_dir :
      (dirname : String) (fs : MemoryFs) → view (ensure_dir dirname fs).1 ≡ view fs
  unfolding ensure_dir
  view-ensure_dir dirname fs = ground (arith, view-find_dir dirname fs)

  -- In a run of fewer than 2^64 - 2 writes, at paths where a file can be put, the revision does not
  -- wrap, every stored version is positive and at most the revision, and no two files share one.
  pub Run-IsNumbered :
      {n : ℕ} {fs : MemoryFs} → Run n fs → suc (suc n) < 2 ^ 64 → IsNumbered n (view fs)
  unfolding read
  Run-IsNumbered fresh b = new-IsNumbered
  Run-IsNumbered (wrote {n} {fs} p obj version ready r) b =
      let (h, l) = Run-IsNumbered r (omega (arith, b)) in
      let e = ap (λ x. x.1) (write_refines m p fs ready obj version) in
      let (h', l') =
        Writes-HasVersions
          (spec_write-Writes m (location p) obj (view fs) (omega (arith, l, b)) version) h in
      rw e (h', omega (arith, l, l'))
  Run-IsNumbered (removed {n} {fs} p ready r) b =
      let (h, l) = Run-IsNumbered r b in
      let (h', l') = spec_remove-HasVersions (location p) (view fs) h in
      rw (ap (λ x. x.1) (remove_refines p fs ready)) (h', omega (arith, l, l'))
  Run-IsNumbered (tested {n} {fs} p ready r) b =
      rw (ap (λ x. x.1) (exists_refines p fs ready)) (Run-IsNumbered r b)
  Run-IsNumbered (looked {n} {fs} p ready r) b =
      rw (ap (λ x. x.1) (read_buffer_refines p fs ready)) (Run-IsNumbered r b)
  Run-IsNumbered (ensured {n} {fs} dirname r) b =
      rw (view-ensure_dir dirname fs) (Run-IsNumbered r b)
  Run-IsNumbered (walked {n} {fs} dirname r) b = rw (view-read_dir dirname fs) (Run-IsNumbered r b)
