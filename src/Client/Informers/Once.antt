-- ===== src/Client/Informers/Once.antt =====
-- About the informers that a factory runs.
use tilt_apiserver.Base.{◌≡◌, refl, String, eq_iff, List, [], ◌∷◌, some, arith}
use tilt_apiserver.Server.ApiGroups.{lookup}
use tilt_apiserver.Client.Informers.{
  InformerPackage, Factory, with_custom_resync_config, with_tweak_list_options, with_namespace,
  with_transform, new_shared_informer_factory, new_shared_informer_factory_with_options,
  apply_options, start, shutdown, informer_for,
}
use tilt_apiserver.Client.Informers.Orderly.{
  Distinct, AllOwn, IsOrderly, start-IsOrderly, informer_for-IsOrderly, others-IsOrderly,
}

module _ (k : InformerPackage) where
  -- The factories that are made of a new one by options and by the methods, one after the other.
  pub data Reached : Factory k → Type 0 where
    made :
        (client : k.Client) (resync : k.Duration)
        → Reached (new_shared_informer_factory k client resync)
    resynced :
        {f : Factory k} (config : List (String × k.Duration))
        → Reached f
        → Reached (with_custom_resync_config k config f)
    tweaked : {f : Factory k} (t : k.Tweak) → Reached f → Reached (with_tweak_list_options k t f)
    placed : {f : Factory k} (ns : String) → Reached f → Reached (with_namespace k ns f)
    transformed : {f : Factory k} (t : k.Transform) → Reached f → Reached (with_transform k t f)
    asked :
        {f : Factory k} (name : String) (new : k.Client → k.Duration → k.Informer)
        → Reached f
        → Reached (informer_for k name new f).1
    started : {f : Factory k} → Reached f → Reached (start k f)
    ended : {f : Factory k} → Reached f → Reached (shutdown k f)

  Reached-IsOrderly : {f : Factory k} → Reached f → IsOrderly k f
  unfolding new_shared_informer_factory new_shared_informer_factory_with_options apply_options
      with_custom_resync_config with_tweak_list_options with_namespace with_transform shutdown
      lookup
  Reached-IsOrderly (made client resync) = record {
    one_each = tt;
    run_once = tt;
    own = tt;
    marked = λ name e. refl;
  }
  Reached-IsOrderly (resynced {f} config r) =
      others-IsOrderly k f (with_custom_resync_config k config f) refl refl refl
        (Reached-IsOrderly r)
  Reached-IsOrderly (tweaked {f} t r) =
      others-IsOrderly k f (with_tweak_list_options k t f) refl refl refl (Reached-IsOrderly r)
  Reached-IsOrderly (placed {f} ns r) =
      others-IsOrderly k f (with_namespace k ns f) refl refl refl (Reached-IsOrderly r)
  Reached-IsOrderly (transformed {f} t r) =
      others-IsOrderly k f (with_transform k t f) refl refl refl (Reached-IsOrderly r)
  Reached-IsOrderly (asked {f} name new r) =
      informer_for-IsOrderly k name new f (Reached-IsOrderly r)
  Reached-IsOrderly (started {f} r) = start-IsOrderly k f (Reached-IsOrderly r)
  Reached-IsOrderly (ended {f} r) =
      others-IsOrderly k f (shutdown k f) refl refl refl (Reached-IsOrderly r)

  -- What `InformerFor` returns is what is registered afterwards.
  own-informer_for :
      (name : String) (i : k.Informer) (new : k.Client → k.Duration → k.Informer) (f : Factory k)
      → lookup name f.informers ≡ some i
      → informer_for k name new f ≡ (i, f)
  unfolding informer_for
  own-informer_for name i new f e = ground (arith, e)

  lookup_own :
      (name : String) (i : k.Informer) (informers running : List (String × k.Informer))
      → AllOwn k informers running
      → lookup name running ≡ some i
      → lookup name informers ≡ some i
  unfolding lookup
  lookup_own name i informers [] h e = absurd (ground (arith, e))
  lookup_own name i informers ((other, j) ∷ running) (h, hs) e =
      ground (arith, h, e, eq_iff other name, lookup_own name i informers running hs)

  -- In every factory that is made of a new one by options and by the methods, the goroutines run
  -- informers of different types, and the informer that is run for a type is the one that
  -- `InformerFor` returns for the type, whatever function it is given, and that leaves the factory
  -- as it was.
  pub runs_once :
      (f : Factory k)
      → Reached f
      → Distinct k f.running
        × ((name : String) (i : k.Informer) (new : k.Client → k.Duration → k.Informer)
            → lookup name f.running ≡ some i
            → informer_for k name new f ≡ (i, f))
  runs_once f r =
      let h = Reached-IsOrderly r in
      (
        h.run_once,
        λ name i new e.
            own-informer_for name i new f (lookup_own name i f.informers f.running h.own e),
      )
