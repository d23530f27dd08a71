-- ===== src/Storage/Rest/Remove/Kept.antt =====
-- What `Delete` leaves of an object with finalizers.
use tilt_apiserver.Base.{
  ℕ, ◌≡◌, ◌≢◌, refl, sym, false, String, List, [], ◌∷◌, ◌++◌, none, some, ok, Result-cases,
  Option-cases, Bool-cases, inl, inr, arith, ◌∙◌,
}
use tilt_apiserver.Storage.Objects.{Machinery}
use tilt_apiserver.Storage.Version.{get_resource_version}
use tilt_apiserver.Storage.Tree.Modify.{same_iff}
use tilt_apiserver.Storage.Registry.{Registry}
use tilt_apiserver.Storage.FileSystem.{FileSystem}
use tilt_apiserver.Storage.Spec.{Store, spec_write, spec_write_bytes, commit, with_file}
use tilt_apiserver.Storage.Contract.{Implements}
use tilt_apiserver.Storage.Rest.{
  FilepathRest, Context, World, modified, object_file_name, notify_watchers, get,
}
use tilt_apiserver.Storage.Rest.Get.{get-IsReady}
use tilt_apiserver.Storage.Rest.Write.{Validate, run_validation, Others}
use tilt_apiserver.Storage.Rest.TryUpdate.{is_nil}
use tilt_apiserver.Storage.Rest.Remove.{mark_deleted, delete_now, delete_later, delete}

-- A write that succeeds leaves a file.
pub spec_write-present :
    (m : Machinery) (loc : List String) (obj out : m.Object) (version : ℕ) (s : Store)
    → (spec_write m loc obj version s).0 ≡ ok out
    → (spec_write m loc obj version s).1.files loc ≢ none
unfolding spec_write spec_write_bytes commit with_file
spec_write-present m loc obj out version s h absent =
    ground (arith, h, absent, (same_iff loc loc).1)

module _ (m : Machinery) (g : Registry m) (fs : FileSystem m) (f : FilepathRest)
    (c : Implements m fs) (ctx : Context) (name : String) (others : Others fs.State)
    (ready_write : (s : fs.State)
      → c.IsReady (object_file_name f ctx name) s
      → c.IsReady (object_file_name f ctx name) (others.before_write 0 s)) where
  abbrev file : String
  file = object_file_name f ctx name

  module _ (now : ℕ) (old obj : m.Object) (w : World m fs) (ready : c.IsReady file w.files)
      (h : (delete_later m g fs f ctx name others now old w).0
        ≡ ok (record { object = obj; at_once = false })) where
    abbrev met : fs.State
    met = others.before_write 0 w.files

    written :
        (version : ℕ) × (get_resource_version m (some (mark_deleted m g fs f now old)) ≡ ok version)
        × ((fs.write file (mark_deleted m g fs f now old) version met).0 ≡ ok obj)
        × (delete_later m g fs f ctx name others now old w).1
          ≡ notify_watchers m g fs f modified obj
              (record w { files = (fs.write file (mark_deleted m g fs f now old) version met).1 })
    unfolding delete_later
    written = elim (Result-cases (get_resource_version m (some (mark_deleted m g fs f now old)))) [
      | inr (e, p) ↦ absurd (ground (arith, p))
      | inl (version, p) ↦
          elim (Result-cases (fs.write file (mark_deleted m g fs f now old) version met).0) [
            | inr (e, q) ↦ absurd (ground (arith, p, q))
            | inl (o, q) ↦ (version, p, ground (arith, p, q), ground (arith, p, q))
          ]
    ]

    delete_later_kept :
        ((c.view (delete_later m g fs f ctx name others now old w).1.files).files (c.location file)
          ≢ none)
        × ((delete_later m g fs f ctx name others now old w).1.notified
            ≡ w.notified ++ record { kind = modified; object = obj } ∷ [])
    unfolding notify_watchers
    delete_later_kept =
        let (version, p, q, after) = written in
        let marked = mark_deleted m g fs f now old in
        let met_ready = ready_write w.files ready in
        let present =
          spec_write-present m (c.location file) marked obj version (c.view met)
            (sym (c.write_result file marked version met met_ready) ∙ q) in
        (rw (after, c.write_view file marked version met met_ready) present, rw after refl)

  delete_now_at_once :
      (old obj : m.Object) (w : World m fs)
      → (delete_now m g fs f ctx name others old w).0
        ≡ ok (record { object = obj; at_once = false })
      → ⊥
  unfolding delete_now
  delete_now_at_once old obj w h = ground (arith, h)

  delete_deferred :
      (now : ℕ) (validation : Validate m) (obj : m.Object) (w : World m fs)
      → (delete m g fs f ctx name others now validation w).0
        ≡ ok (record { object = obj; at_once = false })
      → (old : m.Object) × (is_nil m g fs f (g.get_finalizers old) ≡ false)
        × (delete m g fs f ctx name others now validation w
            ≡ delete_later m g fs f ctx name others now old
                (record w { files = (get m g fs f ctx name w.files).1 }))
  unfolding delete
  delete_deferred now validation obj w h = elim (Result-cases (get m g fs f ctx name w.files).0) [
    | inr (e, p) ↦ absurd (ground (arith, p))
    | inl (old, p) ↦ elim (Option-cases (run_validation validation (some old))) [
      | inr (e, q) ↦ absurd (ground (arith, p, q))
      | inl q ↦ elim (Option-cases (g.accessor old)) [
        | inr (e, t) ↦ absurd (ground (arith, p, q, t))
        | inl t ↦ elim (Bool-cases (is_nil m g fs f (g.get_finalizers old))) [
          | inl b ↦ absurd (
              delete_now_at_once old obj (record w { files = (get m g fs f ctx name w.files).1 })
                (ground (arith, p, q, t, b)))
          | inr b ↦ (old, b, ground (arith, p, q, t, b))
        ]
      ]
    ]
  ]

  -- Where a file can be put at the path, whatever others do before the write: after a deletion that
  -- did not take effect at once, the object's file is still there, and the watchers were told of
  -- the changed object and of nothing else.
  pub delete_kept :
      (now : ℕ) (validation : Validate m) (obj : m.Object) (w : World m fs)
      → c.IsReady file w.files
      → (delete m g fs f ctx name others now validation w).0
        ≡ ok (record { object = obj; at_once = false })
      → ((c.view (delete m g fs f ctx name others now validation w).1.files).files (c.location file)
          ≢ none)
        × ((delete m g fs f ctx name others now validation w).1.notified
            ≡ w.notified ++ record { kind = modified; object = obj } ∷ [])
  delete_kept now validation obj w ready h =
      let (old, b, e) = delete_deferred now validation obj w h in
      rw e (
        delete_later_kept now old obj (record w { files = (get m g fs f ctx name w.files).1 })
          (get-IsReady m g fs f c ctx name w.files ready) (rw e at h))
