-- ===== src/Storage/Rest/Update/Undisturbed.antt =====
-- About an update that nobody disturbs.
use tilt_apiserver.Base.{
  ℕ, suc, ◌≡◌, ◌≤◌, String, Option, none, some, Result, ok, Result-cases, inl, inr, arith, ap, ◌∙◌,
}
use tilt_apiserver.Go.Decimal.{max_uint64}
use tilt_apiserver.Storage.Objects.{Machinery, IsLawful}
use tilt_apiserver.Storage.Version.{
  get_resource_version, set_resource_version, format_resource_version,
  parse-format_resource_version,
}
use tilt_apiserver.Storage.Tree.{VersionedData}
use tilt_apiserver.Storage.Registry.{Registry}
use tilt_apiserver.Storage.FileSystem.{FileSystem}
use tilt_apiserver.Storage.Spec.{spec_write}
use tilt_apiserver.Storage.MemoryFs.{decode_buffer}
use tilt_apiserver.Storage.Contract.{Implements}
use tilt_apiserver.Storage.Rest.{FilepathRest, Context, object_file_name, get}
use tilt_apiserver.Storage.Rest.Get.{get_result, get_view}
use tilt_apiserver.Storage.Rest.Write.{Others}
use tilt_apiserver.Storage.Rest.TryUpdate.{Outcome}
use tilt_apiserver.Storage.Rest.Update.{
  returned, attempt_input, attempt_update, update_loop, guaranteed_update,
}

module _ (m : Machinery) (law : IsLawful m) where
  -- The version of an object that was read from a file is the file's version.
  pub decode_buffer_version :
      (v : VersionedData) (obj : m.Object)
      → v.version ≤ max_uint64
      → decode_buffer m v ≡ ok obj
      → get_resource_version m (some obj) ≡ ok v.version
  unfolding decode_buffer get_resource_version set_resource_version
  decode_buffer_version v obj small h = elim (Result-cases (m.decode v.content)) [
    | inr (e, p) ↦ absurd (ground (arith, p))
    | inl (o, p) ↦ ground (
      arith,
      p,
      small,
      law.get-set o (format_resource_version v.version),
      law.accessor-set o (format_resource_version v.version),
      parse-format_resource_version v.version,
    )
  ]

module _ (m : Machinery) (g : Registry m) (fs : FileSystem m) (f : FilepathRest)
    (c : Implements m fs) (law : IsLawful m) (ctx : Context) (name : String)
    (others : Others fs.State)
    (update : Option m.Object → fs.State → Result (m.Object × Outcome) × fs.State) (s : fs.State)
    (ready : c.IsReady (object_file_name f ctx name) s)
    (alone : (n : ℕ) (t : fs.State) → others.before_write n t ≡ t)
    (live : ctx.ctx_err 0 ≡ none) where
  abbrev stored : Option VersionedData
  stored = (c.view s).files (c.location (object_file_name f ctx name))

  got_version :
      (v : VersionedData) (obj : m.Object)
      → stored ≡ some v
      → v.version ≤ max_uint64
      → (get m g fs f ctx name s).0 ≡ ok obj
      → get_resource_version m (some obj) ≡ ok v.version
  got_version v obj there small h = elim (Result-cases (decode_buffer m v)) [
    | inr (e, p) ↦ absurd (ground (arith, p, get_result m g fs f c ctx name s ready))
    | inl (o, p) ↦
        ground (arith, p, get_result m g fs f c ctx name s ready, decode_buffer_version m law v o)
  ]

  module _ (v : VersionedData) (obj out out' : m.Object) (outcome : Outcome)
      (there : stored ≡ some v) (small : v.version ≤ max_uint64)
      (h : (get m g fs f ctx name s).0 ≡ ok obj)
      (computed : (update (some obj) (get m g fs f ctx name s).1).0 ≡ ok (out, outcome))
      (kept : c.view (update (some obj) (get m g fs f ctx name s).1).1
        ≡ c.view (get m g fs f ctx name s).1)
      (still : c.IsReady
        (object_file_name f ctx name)
        (update (some obj) (get m g fs f ctx name s).1).1)
      (wrote : (spec_write m (c.location (object_file_name f ctx name)) out v.version (c.view s)).0
        ≡ ok out') where
    abbrev met : fs.State
    met = (update (some obj) (get m g fs f ctx name s).1).1

    met_view : c.view met ≡ c.view s
    met_view = kept ∙ get_view m g fs f c ctx name s ready

    written : (fs.write (object_file_name f ctx name) out v.version met).0 ≡ ok out'
    written =
        c.write_result (object_file_name f ctx name) out v.version met still ∙ rw met_view wrote

    attempt : attempt_update m g fs f ctx name others update 0 s ≡ (
      returned (ok (out', outcome)),
      (fs.write (object_file_name f ctx name) out v.version met).1,
    )
    unfolding attempt_update attempt_input
    attempt =
        ground (arith, live, h, computed, got_version v obj there small h, alone 0 met, written)

    loop :
        (left : ℕ)
        → update_loop m g fs f ctx name others update (suc left) 0 s
          ≡ (ok (out', outcome), (fs.write (object_file_name f ctx name) out v.version met).1)
    unfolding update_loop
    loop left = ground (arith, attempt)

    -- Where nobody else uses the files and the context is live, an update of an object that is
    -- stored, with a version of 64 bits, succeeds at once: if the function neither fails nor changes
    -- the files, and a write of what it computed at the stored version is accepted, then the update
    -- returns what that write returns, and leaves the files as that write does.
    pub guaranteed_update_undisturbed :
        ((guaranteed_update m g fs f ctx name others update s).0 ≡ ok (out', outcome))
        × (c.view (guaranteed_update m g fs f ctx name others update s).1
            ≡ (spec_write m (c.location (object_file_name f ctx name)) out v.version (c.view s)).1)
    unfolding guaranteed_update
    guaranteed_update_undisturbed = (
      ap (λ r. r.0) (loop 99),
      ap (λ r. c.view r.1) (loop 99)
          ∙ c.write_view (object_file_name f ctx name) out v.version met still
          ∙ ap (λ t. (spec_write m (c.location (object_file_name f ctx name)) out v.version t).1)
              met_view,
    )
