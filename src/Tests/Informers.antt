-- ===== src/Tests/Informers.antt =====
-- A factory of which one informer is asked for and started twice.
use tilt_apiserver.Base.{◌≡◌, ℕ, ◌+◌, true, String, [], ◌∷◌, some, refl}
use tilt_apiserver.Server.ApiGroups.{lookup, put}
use tilt_apiserver.Client.Informers.{
  InformerPackage, Factory, new_shared_informer_factory, new_shared_informer_factory_with_options,
  apply_options, informer_for, start, start_informers, start_informer, wait_for_cache_sync,
  synced_of,
}
use tilt_apiserver.Client.Informers.Orderly.{Distinct}
use tilt_apiserver.Client.Informers.Once.{Reached, made, asked, started, runs_once}

-- An informer is the sum of its client's number and its period.
abbrev numbers : InformerPackage
numbers = record {
  Client = ℕ;
  Duration = ℕ;
  Tweak = Unit;
  Transform = Unit;
  Informer = ℕ;
  set_transform = λ t i. i;
  wait_for_sync = λ i. true;
}

abbrev sum : ℕ → ℕ → ℕ
sum client period = client + period

abbrev factory : Factory numbers
factory = start numbers (
    start numbers
      (informer_for numbers "manifest" sum (new_shared_informer_factory numbers 1 30)).1)

factory-Reached : Reached numbers factory
factory-Reached = started (started (asked "manifest" sum (made 1 30)))

run_once : factory.running ≡ ("manifest", 31) ∷ []
unfolding new_shared_informer_factory new_shared_informer_factory_with_options apply_options
    informer_for lookup put start start_informers start_informer
run_once = refl

synced_run : wait_for_cache_sync numbers factory ≡ ("manifest", true) ∷ []
unfolding new_shared_informer_factory new_shared_informer_factory_with_options apply_options
    informer_for lookup put start start_informers start_informer wait_for_cache_sync synced_of
synced_run = refl

runs_once_example :
    Distinct numbers factory.running
    × ((name : String) (i : ℕ) (new : ℕ → ℕ → ℕ)
        → lookup name factory.running ≡ some i
        → informer_for numbers name new factory ≡ (i, factory))
runs_once_example = runs_once numbers factory factory-Reached
