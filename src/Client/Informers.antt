-- ===== src/Client/Informers.antt =====
-- pkg/generated/informers/externalversions/factory.go: the factory of shared informers. Its mutex
-- makes each method one step. A map is an association list, and a type of objects is its name.
pub mod Orderly
pub mod Once
use tilt_apiserver.Base.{
  Bool, true, false, ◌||◌, String, ◌=~◌, List, [], ◌∷◌, ◌++◌, Option, none, some, if◌then◌else◌,
}
use tilt_apiserver.Server.ApiGroups.{lookup, put}

-- What a factory is made of: the client, durations, and the library's informers, which are made of
-- a client and the period of their resyncs, and take a transform.
pub record InformerPackage : Type 1 where
  pub Client : Type 0
  pub Duration : Type 0
  pub Tweak : Type 0
  pub Transform : Type 0
  pub Informer : Type 0
  pub set_transform : Option Transform → Informer → Informer
  -- `cache.WaitForCacheSync` on the informer
  pub wait_for_sync : Informer → Bool

-- `sharedInformerFactory`. `started_informers` holds the keys whose value is true, and `running` the
-- goroutines that were started, the last one first, which the wait group counts.
pub record Factory (k : InformerPackage) : Type 0 where
  pub client : k.Client
  pub namespace : String
  pub tweak_list_options : Option k.Tweak
  pub default_resync : k.Duration
  pub custom_resync : List (String × k.Duration)
  pub transform : Option k.Transform
  pub informers : List (String × k.Informer)
  pub started_informers : List String
  pub running : List (String × k.Informer)
  pub shutting_down : Bool

abbrev pub is_started : String → List String → Bool
is_started name [] = false
is_started name (n ∷ names) = n =~ name || is_started name names

module _ (k : InformerPackage) where
  -- The loop of `WithCustomResyncConfig`.
  unfoldable pub put_resyncs :
      List (String × k.Duration) → List (String × k.Duration) → List (String × k.Duration)
  unfolding put
  put_resyncs [] resyncs = resyncs
  put_resyncs ((name, period) ∷ config) resyncs = put_resyncs config (put name period resyncs)

  unfoldable pub with_custom_resync_config : List (String × k.Duration) → Factory k → Factory k
  unfolding put_resyncs
  with_custom_resync_config config f = record f {
    custom_resync = put_resyncs config f.custom_resync;
  }

  unfoldable pub with_tweak_list_options : k.Tweak → Factory k → Factory k
  with_tweak_list_options tweak f = record f { tweak_list_options = some tweak }

  unfoldable pub with_namespace : String → Factory k → Factory k
  with_namespace namespace f = record f { namespace = namespace }

  unfoldable pub with_transform : k.Transform → Factory k → Factory k
  with_transform transform f = record f { transform = some transform }

  unfoldable pub apply_options : List (Factory k → Factory k) → Factory k → Factory k
  apply_options [] f = f
  apply_options (option ∷ options) f = apply_options options (option f)

  -- `NewSharedInformerFactoryWithOptions`; `v1.NamespaceAll` is empty.
  unfoldable pub new_shared_informer_factory_with_options :
      k.Client → k.Duration → List (Factory k → Factory k) → Factory k
  unfolding apply_options
  new_shared_informer_factory_with_options client default_resync options =
      apply_options options (record {
        client = client;
        namespace = "";
        tweak_list_options = none;
        default_resync = default_resync;
        custom_resync = [];
        transform = none;
        informers = [];
        started_informers = [];
        running = [];
        shutting_down = false;
      })

  unfoldable pub new_shared_informer_factory : k.Client → k.Duration → Factory k
  unfolding new_shared_informer_factory_with_options
  new_shared_informer_factory client default_resync =
      new_shared_informer_factory_with_options client default_resync []

  unfoldable pub new_filtered_shared_informer_factory :
      k.Client → k.Duration → String → k.Tweak → Factory k
  unfolding new_shared_informer_factory_with_options with_namespace with_tweak_list_options
  new_filtered_shared_informer_factory client default_resync namespace tweak =
      new_shared_informer_factory_with_options client default_resync
        (with_namespace namespace ∷ with_tweak_list_options tweak ∷ [])

  -- One round of the loop of `Start`.
  unfoldable pub start_informer : String → k.Informer → Factory k → Factory k
  start_informer name informer f = if is_started name f.started_informers then f else record f {
    started_informers = name ∷ f.started_informers;
    running = (name, informer) ∷ f.running;
  }

  unfoldable pub start_informers : List (String × k.Informer) → Factory k → Factory k
  unfolding start_informer
  start_informers [] f = f
  start_informers ((name, informer) ∷ informers) f =
      start_informers informers (start_informer name informer f)

  unfoldable pub start : Factory k → Factory k
  unfolding start_informers
  start f = if f.shutting_down then f else start_informers f.informers f

  -- `Shutdown`, up to its wait for the goroutines.
  unfoldable pub shutdown : Factory k → Factory k
  shutdown f = record f { shutting_down = true }

  -- `WaitForCacheSync`: the answers of the started informers.
  unfoldable pub synced_of : List (String × k.Informer) → List String → List (String × Bool)
  synced_of [] started = []
  synced_of ((name, informer) ∷ informers) started =
      let rest = synced_of informers started in
      if is_started name started then (name, k.wait_for_sync informer) ∷ rest else rest

  unfoldable pub wait_for_cache_sync : Factory k → List (String × Bool)
  unfolding synced_of
  wait_for_cache_sync f = synced_of f.informers f.started_informers

  -- `InformerFor` of an object of the type.
  unfoldable pub informer_for :
      String → (k.Client → k.Duration → k.Informer) → Factory k → k.Informer × Factory k
  unfolding lookup put
  informer_for name new f = elim (lookup name f.informers) [
    | some informer ↦ (informer, f)
    | none ↦
        let period : k.Duration = elim (lookup name f.custom_resync) [
          | none ↦ f.default_resync
          | some d ↦ d
        ] in
        let informer = k.set_transform f.transform (new f.client period) in
        (informer, record f { informers = put name informer f.informers })
  ]
