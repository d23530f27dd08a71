-- ===== src/Storage/Rest/Remove/Gone.antt =====
-- What `Delete` leaves, where nobody else uses the files.
use tilt_apiserver.Base.{
  ℕ, ◌≡◌, refl, sym, true, String, List, [], ◌∷◌, ◌++◌, none, some, ok, err, Result-cases,
  Option-cases, Bool-cases, inl, inr, arith, ap, ◌∙◌, not_found,
}
use tilt_apiserver.Storage.Objects.{Machinery}
use tilt_apiserver.Storage.Tree.Modify.{same_iff}
use tilt_apiserver.Storage.Registry.{Registry}
use tilt_apiserver.Storage.FileSystem.{FileSystem}
use tilt_apiserver.Storage.Spec.{Store, spec_remove, with_file}
use tilt_apiserver.Storage.Contract.{Implements}
use tilt_apiserver.Storage.Rest.{
  FilepathRest, Context, World, deleted, object_file_name, notify_watchers, get,
}
use tilt_apiserver.Storage.Rest.Get.{get_absent, get-IsReady}
use tilt_apiserver.Storage.Rest.Write.{Validate, run_validation, Others}
use tilt_apiserver.Storage.Rest.TryUpdate.{is_nil}
use tilt_apiserver.Storage.Rest.Remove.{delete_now, delete_later, delete}

-- A removal that succeeds leaves no file.
pub spec_remove-absent :
    (loc : List String) (s : Store)
    → (spec_remove loc s).0 ≡ ok tt
    → (spec_remove loc s).1.files loc ≡ none
unfolding spec_remove with_file
spec_remove-absent loc s h = ground (arith, h, (same_iff loc loc).1)

module _ (m : Machinery) (g : Registry m) (fs : FileSystem m) (f : FilepathRest)
    (c : Implements m fs) (ctx : Context) (name : String) (others : Others fs.State)
    (alone : (t : fs.State) → others.before_remove t ≡ t) where
  abbrev file : String
  file = object_file_name f ctx name

  module _ (old obj : m.Object) (w : World m fs) (ready : c.IsReady file w.files)
      (h : (delete_now m g fs f ctx name others old w).0
        ≡ ok (record { object = obj; at_once = true })) where
    removed :
        ((fs.remove file w.files).0 ≡ ok tt)
        × (delete_now m g fs f ctx name others old w).1
          ≡ notify_watchers m g fs f deleted old (record w { files = (fs.remove file w.files).1 })
        × (obj ≡ old)
    unfolding delete_now
    removed = elim (Result-cases (fs.remove file w.files).0) [
      | inr (e, p) ↦ absurd (ground (arith, p, alone w.files))
      | inl (u, p) ↦ (p, ground (arith, p, alone w.files), ground (arith, p, alone w.files))
    ]

    delete_now-get :
        ((get m g fs f ctx name (delete_now m g fs f ctx name others old w).1.files).0
          ≡ err (not_found name))
        × ((delete_now m g fs f ctx name others old w).1.notified
            ≡ w.notified ++ record { kind = deleted; object = obj } ∷ [])
    unfolding notify_watchers
    delete_now-get =
        let (took, after, same_object) = removed in
        let loc = c.location file in
        let absent =
          spec_remove-absent loc (c.view w.files)
            (sym (c.remove_result file w.files ready) ∙ took) in
        let ready' = c.remove_ready file w.files ready in
        (
          rw after (
              get_absent m g fs f c ctx name (fs.remove file w.files).1 ready'
                (ap (λ t. t.files loc) (c.remove_view file w.files ready) ∙ absent)),
          rw (after, same_object) refl,
        )

  delete_later_stays :
      (now : ℕ) (old obj : m.Object) (w : World m fs)
      → (delete_later m g fs f ctx name others now old w).0
        ≡ ok (record { object = obj; at_once = true })
      → ⊥
  unfolding delete_later
  delete_later_stays now old obj w h = ground (arith, h)

  delete_took_effect :
      (now : ℕ) (validation : Validate m) (obj : m.Object) (w : World m fs)
      → (delete m g fs f ctx name others now validation w).0
        ≡ ok (record { object = obj; at_once = true })
      → (old : m.Object) × (delete m g fs f ctx name others now validation w
          ≡ delete_now m g fs f ctx name others old
              (record w { files = (get m g fs f ctx name w.files).1 }))
  unfolding delete
  delete_took_effect now validation obj w h =
      elim (Result-cases (get m g fs f ctx name w.files).0) [
        | inr (e, p) ↦ absurd (ground (arith, p))
        | inl (old, p) ↦ elim (Option-cases (run_validation validation (some old))) [
          | inr (e, q) ↦ absurd (ground (arith, p, q))
          | inl q ↦ elim (Option-cases (g.accessor old)) [
            | inr (e, t) ↦ absurd (ground (arith, p, q, t))
            | inl t ↦ elim (Bool-cases (is_nil m g fs f (g.get_finalizers old))) [
              | inr b ↦ absurd (
                  delete_later_stays now old obj
                    (record w { files = (get m g fs f ctx name w.files).1 })
                    (ground (arith, p, q, t, b)))
              | inl b ↦ (old, ground (arith, p, q, t, b))
            ]
          ]
        ]
      ]

  -- Where a file can be put at the path and nobody else uses the files before the removal: after a
  -- deletion that took effect at once, `Get` finds nothing under the name, and the watchers were
  -- told of the deleted object and of nothing else.
  pub delete-get :
      (now : ℕ) (validation : Validate m) (obj : m.Object) (w : World m fs)
      → c.IsReady file w.files
      → (delete m g fs f ctx name others now validation w).0
        ≡ ok (record { object = obj; at_once = true })
      → ((get m g fs f ctx name (delete m g fs f ctx name others now validation w).1.files).0
          ≡ err (not_found name))
        × ((delete m g fs f ctx name others now validation w).1.notified
            ≡ w.notified ++ record { kind = deleted; object = obj } ∷ [])
  delete-get now validation obj w ready h =
      let (old, e) = delete_took_effect now validation obj w h in
      rw e (
        delete_now-get old obj (record w { files = (get m g fs f ctx name w.files).1 })
          (get-IsReady m g fs f c ctx name w.files ready) (rw e at h))
