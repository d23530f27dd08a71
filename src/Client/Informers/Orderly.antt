-- ===== src/Client/Informers/Orderly.antt =====
-- About the informers of a factory, and those that are started.
use tilt_apiserver.Base.{
  ◌≡◌, refl, sym, ap, ◌∙◌, false, String, ◌=~◌, eq_iff, eq_refl, List, [], ◌∷◌, none, some, arith,
  Bool-cases, Option-cases, inl, inr, if◌then◌else◌,
}
use mathlib.Core.Path.{subst}
use tilt_apiserver.Server.ApiGroups.{lookup, put}
use tilt_apiserver.Client.Informers.{
  InformerPackage, Factory, is_started, start_informer, start_informers, start, informer_for,
}

module _ (k : InformerPackage) where
  -- Each name once.
  abbrev pub Distinct : List (String × k.Informer) → Type 0
  Distinct [] = Unit
  Distinct ((name, i) ∷ rest) = (lookup name rest ≡ none) × Distinct rest

  -- Every goroutine runs the informer of its type.
  abbrev pub AllOwn : List (String × k.Informer) → List (String × k.Informer) → Type 0
  AllOwn informers [] = Unit
  AllOwn informers ((name, i) ∷ running) =
      (lookup name informers ≡ some i) × AllOwn informers running

  pub record IsOrderly (f : Factory k) : Type 0 where
    pub one_each : Distinct f.informers
    pub run_once : Distinct f.running
    pub own : AllOwn f.informers f.running
    pub marked :
        (name : String) → is_started name f.started_informers ≡ false → lookup name f.running ≡ none

  lookup-put :
      (key other : String) (i : k.Informer) (entries : List (String × k.Informer))
      → lookup other (put key i entries) ≡ (if key =~ other then some i else lookup other entries)
  unfolding lookup put
  lookup-put key other i [] = refl
  lookup-put key other i ((name, j) ∷ entries) =
      ground (
        arith,
        lookup-put key other i entries,
        eq_iff name key,
        eq_iff name other,
        eq_iff key other,
      )

  put-Distinct :
      (key : String) (i : k.Informer) (entries : List (String × k.Informer))
      → lookup key entries ≡ none
      → Distinct entries
      → Distinct (put key i entries)
  unfolding lookup put
  put-Distinct key i [] n h = (refl, tt)
  put-Distinct key i ((name, j) ∷ entries) n (h, hs) = elim (Bool-cases (name =~ key)) [
    | inl e ↦ absurd (ground (arith, n, e))
    | inr e ↦ rw e (
      ground (arith, lookup-put key name i entries, h, e, eq_iff name key, eq_iff key name),
      put-Distinct key i entries (ground (arith, n, e)) hs,
    )
  ]

  put-AllOwn :
      (key : String) (i : k.Informer) (entries running : List (String × k.Informer))
      → lookup key entries ≡ none
      → AllOwn entries running
      → AllOwn (put key i entries) running
  put-AllOwn key i entries [] n h = tt
  put-AllOwn key i entries ((name, j) ∷ running) n (h, hs) = (
    ground (arith, lookup-put key name i entries, h, n, eq_iff key name),
    put-AllOwn key i entries running n hs,
  )

  -- A longer map has what the shorter one had.
  own-cons :
      (name : String) (i : k.Informer) (informers running : List (String × k.Informer))
      → lookup name informers ≡ none
      → AllOwn informers running
      → AllOwn ((name, i) ∷ informers) running
  unfolding lookup
  own-cons name i informers [] n h = tt
  own-cons name i informers ((other, j) ∷ running) n (h, hs) =
      (ground (arith, h, n, eq_iff name other), own-cons name i informers running n hs)

  all_own :
      (informers : List (String × k.Informer)) → Distinct informers → AllOwn informers informers
  unfolding lookup
  all_own [] h = tt
  all_own ((name, i) ∷ informers) (h, hs) =
      (ground (arith, eq_refl name), own-cons name i informers informers h (all_own informers hs))

  start_informer-IsOrderly :
      (name : String) (i : k.Informer) (f : Factory k)
      → lookup name f.informers ≡ some i
      → IsOrderly f
      → IsOrderly (start_informer k name i f)
  unfolding start_informer lookup
  start_informer-IsOrderly name i f e h = elim (Bool-cases (is_started name f.started_informers)) [
    | inl s ↦ subst IsOrderly (ground (arith, s)) h
    | inr s ↦
        let more : IsOrderly (record f {
          started_informers = name ∷ f.started_informers;
          running = (name, i) ∷ f.running;
        }) =
          record {
            one_each = h.one_each;
            run_once = (h.marked name s, h.run_once);
            own = (e, h.own);
            marked = λ other o. ground (arith, o, h.marked other);
          } in
        subst IsOrderly (ground (arith, s)) more
  ]

  informers-kept :
      (name : String) (i : k.Informer) (f : Factory k)
      → (start_informer k name i f).informers ≡ f.informers
  unfolding start_informer
  informers-kept name i f = ground arith

  start_informers-IsOrderly :
      (l : List (String × k.Informer)) (f : Factory k)
      → AllOwn f.informers l
      → IsOrderly f
      → IsOrderly (start_informers k l f)
  unfolding start_informers
  start_informers-IsOrderly [] f own h = h
  start_informers-IsOrderly ((name, i) ∷ l) f (e, own) h =
      start_informers-IsOrderly l (start_informer k name i f)
        (subst (λ t. AllOwn t l) (sym (informers-kept name i f)) own)
        (start_informer-IsOrderly name i f e h)

  pub start-IsOrderly : (f : Factory k) → IsOrderly f → IsOrderly (start k f)
  unfolding start
  start-IsOrderly f h = elim (Bool-cases f.shutting_down) [
    | inl s ↦ subst IsOrderly (ground (arith, s)) h
    | inr s ↦
        subst IsOrderly (ground (arith, s))
          (start_informers-IsOrderly f.informers f (all_own f.informers h.one_each) h)
  ]

  pub informer_for-IsOrderly :
      (name : String) (new : k.Client → k.Duration → k.Informer) (f : Factory k)
      → IsOrderly f
      → IsOrderly (informer_for k name new f).1
  unfolding informer_for
  informer_for-IsOrderly name new f h = elim (Option-cases (lookup name f.informers)) [
    | inr (i, e) ↦ subst IsOrderly (ground (arith, e)) h
    | inl e ↦
        let i = (informer_for k name new f).0 in
        let more : IsOrderly (record f { informers = put name i f.informers }) = record {
          one_each = put-Distinct name i f.informers e h.one_each;
          run_once = h.run_once;
          own = put-AllOwn name i f.informers f.running e h.own;
          marked = h.marked;
        } in
        subst IsOrderly (ground (arith, e)) more
  ]

  -- The other fields do not matter.
  pub others-IsOrderly :
      (f g : Factory k)
      → g.informers ≡ f.informers
      → g.started_informers ≡ f.started_informers
      → g.running ≡ f.running
      → IsOrderly f
      → IsOrderly g
  others-IsOrderly f g a b c h = record {
    one_each = subst Distinct (sym a) h.one_each;
    run_once = subst Distinct (sym c) h.run_once;
    own = subst (λ t. AllOwn t g.running) (sym a) (subst (AllOwn f.informers) (sym c) h.own);
    marked = λ name e. ap (lookup name) c ∙ h.marked name (sym (ap (is_started name) b) ∙ e);
  }
