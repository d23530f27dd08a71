-- ===== src/Builder/Provider/Shared.antt =====
-- About the storage of a resource and of its status subresource.
use tilt_apiserver.Base.{
  ◌≡◌, ap, sym, ◌∙◌, String, Option, some, Error, Option-cases, Result-cases, inl, inr, arith, [],
  ◌∷◌,
}
use tilt_apiserver.Go.Paths
use tilt_apiserver.Storage.Objects.{Machinery}
use tilt_apiserver.Storage.FileSystem.{FileSystem}
use tilt_apiserver.Builder.Register.{GroupResource, group_resource}
use tilt_apiserver.Storage.Provider.{
  Provided, panicked, nothing, failed, made, FileResource, FileStorage, json_provider,
}
use tilt_apiserver.Builder.Provider.{StatusStorage, StatusChecks, status_of, status_get}

-- `filepathREST` updates and gets.
abbrev pub file_checks :
    {W T : Type 0}
    → (FileStorage W T → Error)
    → Error
    → StatusChecks (FileStorage W T) (FileStorage W T) (FileStorage W T)
file_checks refusal e = record {
  as_updater = λ storage. some storage;
  as_getter = λ storage. some storage;
  no_update = refusal;
  no_get = refusal;
  nil_no_update = e;
}

status_of-made :
    {W T : Type 0} (refusal : FileStorage W T → Error) (e : Error) (r : Provided (FileStorage W T))
    (y : StatusStorage (FileStorage W T) (FileStorage W T))
    → status_of (file_checks refusal e) r ≡ made y
    → (r ≡ made y.updater) × (y.getter ≡ y.updater)
unfolding status_of
status_of-made refusal e panicked y h = absurd (ground (arith, h))
status_of-made refusal e nothing y h = absurd (ground (arith, h))
status_of-made refusal e (made storage) y h = (ground (arith, h), ground (arith, h))
status_of-made refusal e (failed x) y h = absurd (ground (arith, h))

module _ (m : Machinery) (fs : FileSystem m) {W T : Type 0} (obj : FileResource)
    (root_path : String) (watch_set : W) where
  made_storage :
      (strategy : T) (getter : GroupResource → Option Error) (s : fs.State) (x : FileStorage W T)
      → (json_provider m fs obj root_path watch_set strategy getter s).0 ≡ made x
      → x ≡ record {
        rest = record {
          obj_root_path = Paths.join (root_path ∷ obj.gvr.group ∷ obj.gvr.resource ∷ []);
          namespace_scoped = obj.namespace_scoped;
          list_err = obj.list_err;
        };
        watch_set = watch_set;
        strategy = strategy;
      }
  unfolding json_provider
  made_storage strategy getter s x h = elim (Option-cases (getter (group_resource obj.gvr))) [
    | inr (e, q) ↦ absurd (ground (arith, q, h))
    | inl q ↦
        elim (Result-cases
          (fs.ensure_dir (Paths.join (root_path ∷ obj.gvr.group ∷ obj.gvr.resource ∷ [])) s).0) [
            | inr (e, r) ↦ absurd (ground (arith, q, r, h))
            | inl (u, r) ↦ ground (arith, q, r, h)
          ]
  ]

  -- The storage of a resource and the storage of its status, each with its strategy, keep their
  -- objects in the same files, and notify the same watches, whenever they are made; and the status
  -- storage gets what it updates.
  pub status_get-shares :
      (refusal : FileStorage W T → Error) (e : Error) (strategy status_strategy : T)
      (getter : GroupResource → Option Error) (s t : fs.State) (x : FileStorage W T)
      (y : StatusStorage (FileStorage W T) (FileStorage W T))
      → (json_provider m fs obj root_path watch_set strategy getter s).0 ≡ made x
      → (status_get
          (file_checks refusal e)
          (json_provider m fs obj root_path watch_set status_strategy)
          getter
          t).0
        ≡ made y
      → (y.updater ≡ record x { strategy = status_strategy }) × (y.getter ≡ y.updater)
  unfolding status_get
  status_get-shares refusal e strategy status_strategy getter s t x y h k =
      let (p, q) =
        status_of-made refusal e
          (json_provider m fs obj root_path watch_set status_strategy getter t).0 y k in
      (
        made_storage status_strategy getter t y.updater p
            ∙ ap {A = FileStorage W T} (λ z. record z { strategy = status_strategy })
                (sym (made_storage strategy getter s x h)),
        q,
      )
