-- ===== src/Storage/RealFs/LastWins.antt =====
-- About writes and reads of one path of the real file system.
use tilt_apiserver.Base.{
  ℕ, ◌+◌, ◌%◌, ◌^◌, ◌≡◌, false, String, some, ok, Result-cases, Bool-cases, inl, inr, arith, ◌>>=◌,
}
use tilt_apiserver.Go.Paths
use tilt_apiserver.Storage.Objects.{Machinery, ReadsBack}
use tilt_apiserver.Storage.Version.{set_resource_version}
use tilt_apiserver.Storage.RealFs.{Os, RealFs, with_lock, increment_rev, write, read}

-- What is relied on of the operating system: a file that was written has what was written, until
-- something else is written.
pub record KeepsFiles (os : Os) : Type 0 where
  pub read-write :
      (p content : String) (d : os.Disk)
      → (os.write_file p content d).0 ≡ ok tt
      → os.read_file (Paths.clean p) (os.write_file p content d).1 ≡ ok content

module _ (m : Machinery) (os : Os) (keeps : KeepsFiles os) (back : ReadsBack m) where
  write-locked :
      (p : String) (obj : m.Object) (version : ℕ) (s s' : RealFs os) (out : m.Object)
      → write m os p obj version s ≡ some (ok out, s')
      → (s'.locked ≡ false)
        × (os.read_file (Paths.clean p) s'.disk >>= m.decode ≡ ok (back.written out))
  unfolding write with_lock increment_rev
  write-locked p obj version s s' out h = elim (Bool-cases s.locked) [
    | inl l ↦ absurd (ground (arith, h, l))
    | inr l ↦ elim (Result-cases (set_resource_version m obj ((s.rev + 1) % 2 ^ 64))) [
      | inr (e, q) ↦ absurd (ground (arith, h, l, q))
      | inl (obj', q) ↦ elim (Result-cases (m.encode obj')) [
        | inr (e, t) ↦ absurd (ground (arith, h, l, q, t))
        | inl (content, t) ↦ elim (Result-cases (os.write_file p content s.disk).0) [
          | inr (e, u) ↦ absurd (ground (arith, h, l, q, t, u))
          | inl (done, u) ↦ (
            ground (arith, h, l, q, t, u),
            ground (
              arith,
              h,
              l,
              q,
              t,
              u,
              back.decode-encode obj' content,
              keeps.read-write p content s.disk,
            ),
          )
        ]
      ]
    ]
  ]

  -- On the real file system the last write wins: the version that a caller names makes no
  -- difference to a write; and, if the disk keeps what was written and the codec decodes what it
  -- encoded, then after a write that succeeds, a read of its path returns the object that was
  -- returned to the writer, with its new version, as the codec writes it.
  pub write-read :
      (p : String) (obj out : m.Object) (version other : ℕ) (s s' : RealFs os)
      → write m os p obj version s ≡ some (ok out, s')
      → (read m os p s' ≡ some (ok (back.written out), s'))
        × (write m os p obj other s ≡ some (ok out, s'))
  unfolding read with_lock write
  write-read p obj out version other s s' h =
      let (free, found) = write-locked p obj version s s' out h in (ground (arith, free, found), h)
