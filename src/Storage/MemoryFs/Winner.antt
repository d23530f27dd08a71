-- ===== src/Storage/MemoryFs/Winner.antt =====
-- About two writes to a file of a `MemoryFS` that name the same version.
use tilt_apiserver.Base.{
  ℕ, suc, ◌+◌, ◌^◌, ◌≤◌, ◌<◌, ◌≡◌, ◌≢◌, sym, ap, ◌∙◌, String, some, ok, err, Error, inl, inr, arith,
}
use tilt_apiserver.Storage.Objects.{Machinery}
use tilt_apiserver.Storage.Tree.{VersionedData}
use tilt_apiserver.Storage.Spec.Versions.{HasVersions, spec_write-Writes}
use tilt_apiserver.Storage.Spec.Newer.{
  IsNewer, IsNewer-refl, IsNewer-trans, Writes-IsNewer, Writes-rev, spec_remove-IsNewer,
  spec_remove-rev, spec_write-placed, spec_write-refused,
}
use tilt_apiserver.Storage.MemoryFs.{MemoryFs, read, write}
use tilt_apiserver.Storage.MemoryFs.Files.{location, view, IsReady}
use tilt_apiserver.Storage.MemoryFs.Refines.{
  write_refines, remove_refines, exists_refines, read_buffer_refines,
}
use tilt_apiserver.Storage.Rest.Listing.{view-read_dir}
use tilt_apiserver.Storage.MemoryFs.Versions.{
  RunFrom, fresh, wrote, removed, tested, looked, ensured, walked, view-ensure_dir,
}

module _ (m : Machinery) where
  -- In a run whose writes do not make the revision wrap, what is stored at the end was stored at the
  -- start, or has a version above the revision of the start.
  RunFrom-IsNewer :
      {start : MemoryFs} {n : ℕ} {fs : MemoryFs}
      → RunFrom m start n fs
      → suc ((view start).rev + n) < 2 ^ 64
      → IsNewer (view start) (view fs) × ((view fs).rev ≤ (view start).rev + n)
  unfolding read
  RunFrom-IsNewer {start} fresh b = (IsNewer-refl (view start), omega arith)
  RunFrom-IsNewer {start} (wrote {n} {fs} p obj version ready r) b =
      let (h, l) = RunFrom-IsNewer r (omega (arith, b)) in
      let w = spec_write-Writes m (location p) obj (view fs) (omega (arith, l, b)) version in
      rw (ap (λ x. x.1) (write_refines m p fs ready obj version))
        (IsNewer-trans h (Writes-IsNewer w), omega (arith, l, Writes-rev w))
  RunFrom-IsNewer {start} (removed {n} {fs} p ready r) b =
      let (h, l) = RunFrom-IsNewer r b in
      rw (ap (λ x. x.1) (remove_refines p fs ready)) (
        IsNewer-trans h (spec_remove-IsNewer (location p) (view fs)),
        omega (arith, l, spec_remove-rev (location p) (view fs)),
      )
  RunFrom-IsNewer {start} (tested {n} {fs} p ready r) b =
      rw (ap (λ x. x.1) (exists_refines p fs ready)) (RunFrom-IsNewer r b)
  RunFrom-IsNewer {start} (looked {n} {fs} p ready r) b =
      rw (ap (λ x. x.1) (read_buffer_refines p fs ready)) (RunFrom-IsNewer r b)
  RunFrom-IsNewer {start} (ensured {n} {fs} dirname r) b =
      rw (view-ensure_dir m dirname fs) (RunFrom-IsNewer r b)
  RunFrom-IsNewer {start} (walked {n} {fs} dirname r) b =
      rw (view-read_dir dirname fs) (RunFrom-IsNewer r b)

  module _ (p : String) (version : ℕ) (given : version ≢ 0) where
    -- Of two writes to a file that name the same version, other than 0, at most one changes it:
    -- where the stored versions are positive, at most the revision and different, and a file can be
    -- put at the path at both times, if the first write succeeds and takes a revision, then after
    -- any run of Write, Remove, Exists and Read at paths where a file can be put, of EnsureDir, and
    -- of the walks of VisitDir, whose writes do not make the revision wrap, the second one is
    -- refused and changes nothing.
    pub second_write_refused :
        (first second : m.Object) (fs later : MemoryFs) (n : ℕ) (out : m.Object)
        → HasVersions (view fs)
        → IsReady p fs
        → (write m p first version fs).0 ≡ ok out
        → (view (write m p first version fs).1).rev ≢ (view fs).rev
        → RunFrom m (write m p first version fs).1 n later
        → suc (suc ((view fs).rev + n)) < 2 ^ 64
        → IsReady p later
        → ((e : Error) × ((write m p second version later).0 ≡ err e))
          × (view (write m p second version later).1 ≡ view later)
    second_write_refused first second fs later n out versions ready returned changed run small
          ready' =
        let e = write_refines m p fs ready first version in
        let s = view fs in
        let after = ap (λ x. x.1) e in
        let (before, rev, (content, there)) =
          spec_write-placed m (location p) version first s (omega (arith, small)) versions given out
            (sym (ap (λ x. x.0) e) ∙ returned) (λ same. changed (ap (λ t. t.rev) after ∙ same)) in
        let rev' = ap (λ t. t.rev) after ∙ rev in
        let (newer, bound) = RunFrom-IsNewer run (omega (arith, small, rev')) in
        let stored = ap (λ t. t.files (location p)) after ∙ there in
        let other : (v : VersionedData)
            → (view later).files (location p) ≡ some v
            → v.version ≢ version =
          λ v q same. elim (newer.newer (location p) v q) [
            | inl kept ↦ absurd (ground (arith, before, stored, kept, same))
            | inr above ↦ absurd (omega (arith, before, rev', above, same))
          ] in
        let ((error, refused), left) =
          spec_write-refused m (location p) version second (view later) given other in
        let e' = write_refines m p later ready' second version in
        ((error, ap (λ x. x.0) e' ∙ refused), ap (λ x. x.1) e' ∙ left)
