-- ===== src/Storage/Rest/Watch.antt =====
-- `Watch` of jsonfile_rest.go, which lists the objects and starts a watch of the watch set.
pub mod Initial
use tilt_apiserver.Base.{ℕ, Bool, true, false, List, [], ◌∷◌, ◌++◌, Option, Result, ok, err, Error}
use tilt_apiserver.Storage.Objects.{Machinery}
use tilt_apiserver.Storage.Registry.{Registry}
use tilt_apiserver.Storage.FileSystem.{FileSystem}
use tilt_apiserver.Storage.WatchSet.{WatchNode, WatchSet, new_watch, start}
use tilt_apiserver.Storage.Rest.{
  FilepathRest, Context, Event, added, ListOptions, SelectionPredicate, new_selection_predicate,
  predicate_matches, list,
}

module _ (m : Machinery) (g : Registry m) where
  -- The event of an object that is there when the watch begins.
  abbrev pub added_event : m.Object → Event m
  added_event obj = record { kind = added; object = obj }

  -- `p.Matches(e.Object)`
  abbrev pub event_matches : SelectionPredicate m g → Event m → Result Bool
  event_matches p e = predicate_matches m g p e.object

  -- The loop of `getInitEvents` over the items of the list, and the events so far.
  unfoldable pub add_init_events :
      SelectionPredicate m g → List m.Object → List (Event m) → Result (List (Event m))
  add_init_events p [] events = ok events
  add_init_events p (obj ∷ items) events = elim (predicate_matches m g p obj) [
    | err e ↦ err e
    | ok false ↦ add_init_events p items events
    | ok true ↦ add_init_events p items (events ++ added_event obj ∷ [])
  ]

module _ (m : Machinery) (g : Registry m) (fs : FileSystem m) (f : FilepathRest) where
  unfoldable pub get_init_events :
      Context → Option (ListOptions g) → fs.State → Result (List (Event m)) × fs.State
  get_init_events ctx options s =
      let (listed, s') = list m g fs f ctx options s in
      elim listed [
        | err e ↦ (err e, s')
        | ok l ↦ (add_init_events m g (new_selection_predicate m g options) l.items [], s')
      ]

  -- The watch with the error of its start, and what is left of the files and the watch set.
  pub record Watched : Type 0 where
    pub id : ℕ
    pub failed : Option Error
    pub files : fs.State
    pub watch_set : WatchSet (Event m)

  -- The lock of the watch set is held from the registration on, while the objects are listed.
  unfoldable pub watch : Context → Option (ListOptions g) → fs.State → WatchSet (Event m) → Watched
  watch ctx options s ws =
      let p = new_selection_predicate m g options in
      let (jw, ws₁) = new_watch ws in
      let (init_events, s') = get_init_events ctx options s in
      let (start_err, ws₂) = start jw (event_matches m g p) init_events ws₁ in
      record { id = jw.id; failed = start_err; files = s'; watch_set = ws₂ }
