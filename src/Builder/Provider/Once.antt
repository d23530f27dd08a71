-- ===== src/Builder/Provider/Once.antt =====
-- About the calls of a provider that is called once.
use tilt_apiserver.Base.{◌≡◌, ◌≢◌, refl, true, List, [], ◌∷◌, map, arith}
use tilt_apiserver.Storage.Provider.{Provided, panicked, nothing, made, failed}
use tilt_apiserver.Builder.Provider.{Singleton, new_singleton, singleton_get}

module _ {A S W : Type 0} (provider : A → W → Provided S × W) where
  -- What some calls of `Get` return, one after the other, and the state after them.
  unfoldable pub gets : List A → Singleton S → W → List (Provided S) × W
  gets [] s w = ([], w)
  gets (a ∷ calls) s w =
      let (r, s', w') = singleton_get provider a s w in
      let (rest, w'') = gets calls s' w' in (r ∷ rest, w'')

  gets-done :
      (calls : List A) (s : Singleton S) (w : W)
      → s.done ≡ true
      → gets calls s w ≡ (map (λ a. s.result) calls, w)
  unfolding gets singleton_get
  gets-done [] s w h = refl
  gets-done (a ∷ calls) s w h = ground (arith, h, gets-done calls s w h)

  -- If the provider does not panic at the first call, then it is called once: every call of `Get`
  -- returns what it returned at the first, and no later call changes anything.
  pub singleton_get-once :
      (a : A) (calls : List A) (w w' : W) (r : Provided S)
      → provider a w ≡ (r, w')
      → r ≢ panicked
      → gets (a ∷ calls) new_singleton w ≡ (r ∷ map (λ b. r) calls, w')
  unfolding gets singleton_get
  singleton_get-once a calls w w' panicked h n = absurd (n refl)
  singleton_get-once a calls w w' nothing h n =
      ground (arith, h, gets-done calls (record { done = true; result = nothing }) w' refl)
  singleton_get-once a calls w w' (made storage) h n =
      ground (arith, h, gets-done calls (record { done = true; result = made storage }) w' refl)
  singleton_get-once a calls w w' (failed e) h n =
      ground (arith, h, gets-done calls (record { done = true; result = failed e }) w' refl)
