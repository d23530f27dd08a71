-- ===== src/Storage/Rest/Create.antt =====
-- `Create` against the specification.
use tilt_apiserver.Base.{
  ℕ, zero, suc, ◌≡◌, String, List, [], ◌∷◌, ◌++◌, Option, none, some, ok, err, already_exists,
  Result-cases, Option-cases, ◌+◌, ◌%◌, ◌^◌, sym, inl, inr, arith, ◌>>=◌,
}
use tilt_apiserver.Storage.Objects.{Machinery, IsLawful, ReadsBack}
use tilt_apiserver.Storage.Version.{
  format_resource_version, set_resource_version, clear_resource_version,
}
use tilt_apiserver.Storage.Tree.{VersionedData}
use tilt_apiserver.Storage.Tree.Modify.{same_iff}
use tilt_apiserver.Storage.Registry.{Registry}
use tilt_apiserver.Storage.FileSystem.{FileSystem}
use tilt_apiserver.Storage.Spec.{
  Store, found, spec_exists, spec_write, spec_write_bytes, commit, with_file,
}
use tilt_apiserver.Storage.MemoryFs.{decode_buffer}
use tilt_apiserver.Storage.Contract.{Implements}
use tilt_apiserver.Storage.Rest.{
  FilepathRest, Context, World, added, object_file_name, notify_watchers, get,
}
use tilt_apiserver.Storage.Rest.Get.{get_result}
use tilt_apiserver.Storage.Rest.Write.{
  Others, Validate, run_validation, ensure_namespace, create_file, create,
}

module _ (m : Machinery) (law : IsLawful m) (back : ReadsBack m) where
  decode_stamped :
      (obj out : m.Object) (rev : ℕ) (buf : String)
      → m.common_accessor obj ≡ none
      → m.encode (m.set_resource_version obj "") ≡ ok buf
      → set_resource_version m obj rev ≡ ok out
      → decode_buffer m (record { version = rev; content = buf }) ≡ ok (back.written out)
  unfolding decode_buffer set_resource_version
  decode_stamped obj out zero buf a e h = absurd (ground arith)
  decode_stamped obj out (suc v) buf a e h = ground (
    arith,
    back.decode-encode (m.set_resource_version obj "") buf,
    back.accessor-written (m.set_resource_version obj ""),
    back.written-set obj "",
    back.written-set obj (format_resource_version (suc v)),
    law.accessor-set obj "",
    law.set-set (back.written obj) "" (format_resource_version (suc v)),
  )

  -- A write that creates puts a file whose content decodes to the object that the writer holds, as
  -- the codec writes it.
  pub decode-write :
      (loc : List String) (obj out : m.Object) (s : Store)
      → s.files loc ≡ none
      → (spec_write m loc obj 0 s).0 ≡ ok out
      → (found ((spec_write m loc obj 0 s).1.files loc) >>= decode_buffer m) ≡ ok (back.written out)
  unfolding spec_write spec_write_bytes commit with_file clear_resource_version
  decode-write loc obj out s absent h = elim (Option-cases (m.common_accessor obj)) [
    | inr (e, p) ↦ absurd (ground (arith, p))
    | inl p ↦ elim (Result-cases (m.encode (m.set_resource_version obj ""))) [
      | inr (e, q) ↦ absurd (ground (arith, p, q))
      | inl (buf, q) ↦
          ground
            (arith, p, q, (same_iff loc loc).1, decode_stamped obj out ((s.rev + 1) % 2 ^ 64) buf)
    ]
  ]

module _ (m : Machinery) (g : Registry m) (fs : FileSystem m) (f : FilepathRest)
    (c : Implements m fs) (ctx : Context) (others : Others fs.State) (obj : m.Object)
    (w : World m fs) where
  abbrev file : String
  file = object_file_name f ctx (g.get_name obj)

  abbrev stored : World m fs → Option VersionedData
  stored u = (c.view u.files).files (c.location file)

  -- Where the object's file is there already, the creation is refused as one of an existing name:
  -- no file changes, and nobody is notified.
  pub create_file_existing :
      (v : VersionedData)
      → c.IsReady file w.files
      → stored w ≡ some v
      → ((create_file m g fs f ctx others obj w).0 ≡ err (already_exists (g.get_name obj)))
        × (c.view (create_file m g fs f ctx others obj w).1.files ≡ c.view w.files)
        × ((create_file m g fs f ctx others obj w).1.notified ≡ w.notified)
  unfolding create_file spec_exists
  create_file_existing v ready there =
      let e = c.exists_result file w.files ready in
      let k = c.exists_view file w.files ready in
      (ground (arith, e), ground (arith, e, k), ground (arith, e))

  module _ (law : IsLawful m) (back : ReadsBack m) (out : m.Object) (ready : c.IsReady file w.files)
      (alone : (s : fs.State) → others.before_write 0 s ≡ s)
      (h : (create_file m g fs f ctx others obj w).0 ≡ ok out) where
    abbrev tested : fs.State
    tested = (fs.exists file w.files).1

    create_file_parts :
        (stored w ≡ none)
        × ((fs.write file obj 0 tested).0 ≡ ok out)
        × ((create_file m g fs f ctx others obj w).1 ≡ record {
          files = (fs.write file obj 0 tested).1;
          notified = w.notified ++ record { kind = added; object = out } ∷ [];
        })
    unfolding create_file spec_exists notify_watchers
    create_file_parts =
        let e = c.exists_result file w.files ready in
        let a = alone tested in (ground (arith, e, a), ground (arith, e, a), ground (arith, e, a))

    stored_out :
        (found ((spec_write m (c.location file) obj 0 (c.view tested)).1.files (c.location file))
          >>= decode_buffer m)
        ≡ ok (back.written out)
    stored_out =
        let (absent, wrote, after) = create_file_parts in
        let ready' = c.exists_ready file w.files ready in
        decode-write m law back (c.location file) obj out (c.view tested)
          (ground (arith, absent, c.exists_view file w.files ready))
          (ground (arith, wrote, c.write_result file obj 0 tested ready'))

    -- Where a file can be put at the object's path and nobody else uses the files before the write,
    -- a creation that returns an object has stored it: a Get of its name returns that object as the
    -- codec writes it, and the watchers are told of it once.
    pub create_file-get :
        ((get m g fs f ctx (g.get_name obj) (create_file m g fs f ctx others obj w).1.files).0
          ≡ ok (back.written out))
        × ((create_file m g fs f ctx others obj w).1.notified
            ≡ w.notified ++ record { kind = added; object = out } ∷ [])
    create_file-get =
        let (absent, wrote, after) = create_file_parts in
        let ready' = c.exists_ready file w.files ready in
        let ready₂ = c.write_ready file obj 0 tested ready' in
        (
          rw after (
              ground (
                arith,
                get_result m g fs f c ctx (g.get_name obj) (fs.write file obj 0 tested).1 ready₂,
                c.write_view file obj 0 tested ready',
                stored_out,
              )),
          rw after,
        )

module _ (m : Machinery) (g : Registry m) (fs : FileSystem m) (f : FilepathRest)
    (c : Implements m fs) (law : IsLawful m) (back : ReadsBack m) (ctx : Context)
    (others : Others fs.State) where
  -- A creation that returns an object has passed its checks, and made its file in the namespace's
  -- directory.
  create-parts :
      (obj : m.Object) (check : Validate m) (w : World m fs) (out : m.Object)
      → (create m g fs f ctx others obj check w).0 ≡ ok out
      → (obj' : m.Object) × (g.before_create (g.fill_object_meta_system_fields obj) ≡ ok obj')
        × (run_validation check (some obj') ≡ none)
        × (create m g fs f ctx others obj check w
            ≡ create_file m g fs f ctx others obj'
                (record w { files = (ensure_namespace m g fs f ctx w.files).1 }))
  unfolding create
  create-parts obj check w out h = elim (Option-cases (g.accessor obj)) [
    | inr (e, p) ↦ absurd (ground (arith, p, h))
    | inl p ↦ elim (Result-cases (g.before_create (g.fill_object_meta_system_fields obj))) [
      | inr (e, q) ↦ absurd (ground (arith, p, q, h))
      | inl (obj', q) ↦ elim (Option-cases (run_validation check (some obj'))) [
        | inr (e, r) ↦ absurd (ground (arith, p, q, r, h))
        | inl r ↦ elim (Option-cases (ensure_namespace m g fs f ctx w.files).0) [
          | inr (e, t) ↦ absurd (ground (arith, p, q, r, t, h))
          | inl t ↦ (obj', q, r, ground (arith, p, q, r, t))
        ]
      ]
    ]
  ]

  -- If, once the namespace's directory is made, a file can be put at the path of the object that
  -- `BeforeCreate` makes, and nobody else uses the files before the write, then a Create that returns an object has accepted
  -- and stored the object that `BeforeCreate` made of what was sent: a Get of its name returns the
  -- object that Create returned, as the codec writes it, and the watchers are told once of the
  -- object that Create returned.
  pub create-get :
      (obj : m.Object) (check : Validate m) (w : World m fs) (out : m.Object)
      → ((obj' : m.Object)
          → g.before_create (g.fill_object_meta_system_fields obj) ≡ ok obj'
          → c.IsReady
              (object_file_name f ctx (g.get_name obj'))
              (ensure_namespace m g fs f ctx w.files).1)
      → ((s : fs.State) → others.before_write 0 s ≡ s)
      → (create m g fs f ctx others obj check w).0 ≡ ok out
      → (obj' : m.Object) × (g.before_create (g.fill_object_meta_system_fields obj) ≡ ok obj')
        × (run_validation check (some obj') ≡ none)
        × ((get m g fs f ctx (g.get_name obj') (create m g fs f ctx others obj check w).1.files).0
            ≡ ok (back.written out))
        × ((create m g fs f ctx others obj check w).1.notified
            ≡ w.notified ++ record { kind = added; object = out } ∷ [])
  create-get obj check w out ready alone h =
      let (obj', made, valid, same) = create-parts obj check w out h in
      let w' : World m fs = record w { files = (ensure_namespace m g fs f ctx w.files).1 } in
      let (stored, told) =
        create_file-get m g fs f c ctx others obj' w' law back out (ready obj' made) alone
          (rw (sym same) h) in
      (obj', made, valid, rw same stored, rw same told)
