-- ===== src/Storage/Spec/Versions.antt =====
-- About the versions in the store, while the revision does not wrap.
use tilt_apiserver.Base.{
  ℕ, suc, ◌+◌, ◌%◌, ◌^◌, ◌≤◌, ◌<◌, ◌≡◌, refl, true, String, List, none, some, Result-cases,
  Option-cases, Bool-cases, inl, inr, arith, ◌==◌, ◌=~◌, ◌>>=◌, ◌&&◌, not,
}
use tilt_apiserver.Storage.Objects.{Machinery}
use tilt_apiserver.Storage.Version.{set_resource_version, clear_resource_version}
use tilt_apiserver.Storage.Tree.{VersionedData}
use tilt_apiserver.Storage.Tree.Modify.{same, same_iff}
use tilt_apiserver.Storage.Spec.{
  Store, with_file, spec_remove, commit, spec_write_bytes, spec_write,
}

-- Every version is positive and at most the revision, and no two files have the same version.
pub record HasVersions (s : Store) : Type 0 where
  pub positive : (q : List String) (v : VersionedData) → s.files q ≡ some v → 1 ≤ v.version
  pub bounded : (q : List String) (v : VersionedData) → s.files q ≡ some v → v.version ≤ s.rev
  pub distinct :
      (q r : List String) (v w : VersionedData)
      → s.files q ≡ some v
      → s.files r ≡ some w
      → v.version ≡ w.version
      → q ≡ r

same_loc : (loc q : List String) → same loc q ≡ true → loc ≡ q
same_loc loc q = (same_iff loc q).0

pub put-HasVersions :
    (loc : List String) (content : String) (s : Store)
    → HasVersions s
    → HasVersions
        (with_file loc (some (record { version = suc s.rev; content = content })) (suc s.rev) s)
unfolding with_file
put-HasVersions loc content s h = record {
  positive = λ q v e. ground (arith, e, h.positive q v);
  bounded = λ q v e. ground (arith, e, h.bounded q v);
  distinct = λ q r v w e f n. ground (
    arith,
    e,
    f,
    n,
    h.bounded q v,
    h.bounded r w,
    h.distinct q r v w,
    same_loc loc q,
    same_loc loc r,
  );
}

pub drop-HasVersions :
    (loc : List String) (s : Store) → HasVersions s → HasVersions (with_file loc none s.rev s)
unfolding with_file
drop-HasVersions loc s h = record {
  positive = λ q v e. ground (arith, e, h.positive q v);
  bounded = λ q v e. ground (arith, e, h.bounded q v);
  distinct = λ q r v w e f n. ground (arith, e, f, n, h.distinct q r v w);
}

rise-HasVersions : (s : Store) → HasVersions s → HasVersions (record s { rev = suc s.rev })
rise-HasVersions s h = record {
  positive = h.positive;
  bounded = λ q v e. ground (arith, h.bounded q v e);
  distinct = h.distinct;
}

pub no_wrap : (n : ℕ) → suc n < 2 ^ 64 → (n + 1) % 2 ^ 64 ≡ suc n
no_wrap n h = omega arith

-- What a write does to the store: nothing, or a new revision, or a new version of the file too.
pub data Writes (loc : List String) (s : Store) : Store → Type 0 where
  keeps : Writes loc s s
  rises : Writes loc s (record s { rev = suc s.rev })
  puts :
      (content : String)
      → Writes loc s
          (with_file loc (some (record { version = suc s.rev; content = content })) (suc s.rev) s)

module _ (m : Machinery) (loc : List String) (obj : m.Object) (s : Store)
    (small : suc s.rev < 2 ^ 64) where
  commit-Writes : (buf : String) → Writes loc s (commit m loc obj buf s).1
  unfolding commit
  commit-Writes buf = elim (Result-cases (set_resource_version m obj (suc s.rev))) [
    | inr (e, p) ↦
        let q : (commit m loc obj buf s).1 ≡ record s { rev = suc s.rev } =
          ground (arith, no_wrap s.rev small, p) in
        rw q rises
    | inl (o, p) ↦
        let q : (commit m loc obj buf s).1
            ≡ with_file loc (some (record { version = suc s.rev; content = buf })) (suc s.rev) s =
          ground (arith, no_wrap s.rev small, p) in
        rw q (puts buf)
  ]

  -- Whatever the write is, it keeps the store or commits.
  bytes-Writes :
      (buf : String) (version : ℕ) → Writes loc s (spec_write_bytes m loc obj buf version s).1
  unfolding spec_write_bytes
  bytes-Writes buf version =
      let kept : (spec_write_bytes m loc obj buf version s).1 ≡ s
          → Writes loc s (spec_write_bytes m loc obj buf version s).1 =
        λ e. rw e keeps in
      let committed : (spec_write_bytes m loc obj buf version s).1 ≡ (commit m loc obj buf s).1
          → Writes loc s (spec_write_bytes m loc obj buf version s).1 =
        λ e. rw e (commit-Writes buf) in
      elim (Option-cases (s.files loc)) [
        | inl p ↦ elim (Bool-cases (version == 0)) [
          | inl q ↦ committed (ground (arith, p, q))
          | inr q ↦ kept (ground (arith, p, q))
        ]
        | inr (v, p) ↦ elim (Bool-cases (v.version == version && not (v.content =~ buf))) [
          | inl q ↦ committed (ground (arith, p, q))
          | inr q ↦ kept (ground (arith, p, q))
        ]
      ]

  pub spec_write-Writes : (version : ℕ) → Writes loc s (spec_write m loc obj version s).1
  unfolding spec_write
  spec_write-Writes version = elim (Result-cases (clear_resource_version m obj >>= m.encode)) [
    | inr (e, p) ↦ let q : (spec_write m loc obj version s).1 ≡ s = ground (arith, p) in rw q keeps
    | inl (buf, p) ↦
        let q : (spec_write m loc obj version s).1 ≡ (spec_write_bytes m loc obj buf version s).1 =
          ground (arith, p) in
        rw q (bytes-Writes buf version)
  ]

pub Writes-HasVersions :
    {loc : List String} {s t : Store}
    → Writes loc s t
    → HasVersions s
    → HasVersions t × (t.rev ≤ suc s.rev)
Writes-HasVersions {loc} {s} keeps h = (h, omega arith)
Writes-HasVersions {loc} {s} rises h = (rise-HasVersions s h, omega arith)
Writes-HasVersions {loc} {s} (puts content) h =
    (put-HasVersions loc content s h, unfold with_file in omega arith)

pub spec_remove-HasVersions :
    (loc : List String) (s : Store)
    → HasVersions s
    → HasVersions (spec_remove loc s).1 × ((spec_remove loc s).1.rev ≡ s.rev)
unfolding spec_remove
spec_remove-HasVersions loc s h = elim (Option-cases (s.files loc)) [
  | inl p ↦ let e : (spec_remove loc s).1 ≡ s = ground (arith, p) in rw e (h, refl)
  | inr (v, p) ↦
      let e : (spec_remove loc s).1 ≡ with_file loc none s.rev s = ground (arith, p) in
      rw e (drop-HasVersions loc s h, unfold with_file in refl)
]
