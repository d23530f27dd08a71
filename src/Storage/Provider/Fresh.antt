-- ===== src/Storage/Provider/Fresh.antt =====
-- About the providers of a `MemoryFS` with no files.
use tilt_apiserver.Base.{
  ◌≡◌, ◌≢◌, refl, Bool, true, false, ◌&&◌, String, List, [], ◌∷◌, Option, none, some, ok, Error,
  Option-cases, inl, inr, arith,
}
use tilt_apiserver.Go.Paths
use tilt_apiserver.Storage.Objects.{Machinery}
use tilt_apiserver.Storage.Tree.{
  Node, Dir, empty, entry, directory, contents, get_entry, set_entry, ensure_parts,
}
use tilt_apiserver.Storage.MemoryFs.{
  MemoryFs, memory_fs, new_memory_fs, parts_of, find_dir, ensure_dir,
}
use tilt_apiserver.Builder.Register.{GroupResource, group_resource}
use tilt_apiserver.Storage.Provider.{panicked, failed, FileResource, json_provider}

-- The tree has directories only.
mutual
  no_files : Dir → Bool
  no_files empty = true
  no_files (entry key node d) = no_contents node && no_files d

  no_contents : Node → Bool
  no_contents (directory inner) = no_files inner
  no_contents (contents v) = false

no_contents_at : Option Node → Bool
no_contents_at none = true
no_contents_at (some node) = no_contents node

no_files-get_entry :
    (part : String) (d : Dir) (node : Node)
    → no_files d ≡ true
    → get_entry part d ≡ some node
    → no_contents node ≡ true
unfolding no_files get_entry
no_files-get_entry part empty node h e = absurd (ground (arith, e))
no_files-get_entry part (entry key n d) node h e =
    ground (arith, h, e, no_files-get_entry part d node)

no_files-set_entry :
    (part : String) (node : Node) (d : Dir)
    → no_contents node ≡ true
    → no_files d ≡ true
    → no_files (set_entry part node d) ≡ true
unfolding no_files set_entry
no_files-set_entry part node empty n h = ground (arith, n, h)
no_files-set_entry part node (entry key n' d) n h =
    ground (arith, n, h, no_files-set_entry part node d n)

-- Where there are no files, directories can be made.
no_files-ensure :
    (parts : List String) (d : Dir)
    → no_files d ≡ true
    → (inner : Dir) × ((ensure_parts parts d).0 ≡ ok inner)
      × (no_files (ensure_parts parts d).1 ≡ true)
unfolding ensure_parts no_files
no_files-ensure [] d h = (d, refl, h)
no_files-ensure (part ∷ parts) d h = elim (Option-cases (get_entry part d)) [
  | inl e ↦
      let (inner, r, k) = no_files-ensure parts empty refl in
      let l = no_files-set_entry part (directory (ensure_parts parts empty).1) d k h in
      (inner, ground (arith, e, r), ground (arith, e, l))
  | inr (directory sub, e) ↦
      let (inner, r, k) =
        no_files-ensure parts sub (no_files-get_entry part d (directory sub) h e) in
      let l = no_files-set_entry part (directory (ensure_parts parts sub).1) d k h in
      (inner, ground (arith, e, r), ground (arith, e, l))
  | inr (contents v, e) ↦ absurd (ground (arith, no_files-get_entry part d (contents v) h e))
]

abbrev root_of : FileResource → String → String
root_of obj root_path = Paths.join (root_path ∷ obj.gvr.group ∷ obj.gvr.resource ∷ [])

module _ (m : Machinery) (W T : Type 0) where
  -- What is left of a new file system after some providers were called.
  pub data Provisioned : MemoryFs → Type 0 where
    fresh : Provisioned new_memory_fs
    provided :
        {s : MemoryFs} (obj : FileResource) (root_path : String) (watch_set : W) (strategy : T)
        (getter : GroupResource → Option Error)
        → Provisioned s
        → Provisioned (json_provider m (memory_fs m) obj root_path watch_set strategy getter s).1

  Provisioned-no_files : {s : MemoryFs} → Provisioned s → no_files s.dir ≡ true
  unfolding json_provider ensure_dir find_dir new_memory_fs no_files
  Provisioned-no_files fresh = refl
  Provisioned-no_files (provided {s} obj root_path watch_set strategy getter h) =
      let parts = parts_of (root_of obj root_path) in
      let k = Provisioned-no_files h in
      elim (Option-cases (getter (group_resource obj.gvr))) [
        | inr (e, q) ↦ ground (arith, q, k)
        | inl q ↦ let (inner, r, l) = no_files-ensure parts s.dir k in ground (arith, q, r, l)
      ]

  -- Among the first storages of a `MemoryFS`, whatever their resources and their paths are, none
  -- makes the constructor panic, and a provider fails only if the getter of options does.
  pub json_provider-made :
      (s : MemoryFs) (obj : FileResource) (root_path : String) (watch_set : W) (strategy : T)
      (getter : GroupResource → Option Error)
      → Provisioned s
      → let r = (json_provider m (memory_fs m) obj root_path watch_set strategy getter s).0 in
        (r ≢ panicked) × ((e : Error) → r ≡ failed e → getter (group_resource obj.gvr) ≡ some e)
  unfolding json_provider ensure_dir find_dir
  json_provider-made s obj root_path watch_set strategy getter h =
      let parts = parts_of (root_of obj root_path) in
      let (inner, r, l) = no_files-ensure parts s.dir (Provisioned-no_files h) in
      elim (Option-cases (getter (group_resource obj.gvr))) [
        | inr (e, q) ↦ (λ p. ground (arith, q, p), λ e' p. ground (arith, q, p))
        | inl q ↦ (λ p. ground (arith, q, r, p), λ e' p. absurd (ground (arith, q, r, p)))
      ]
