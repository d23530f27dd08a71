-- ===== src/Storage/Rest/Watch/Initial.antt =====
-- About the first events of a watch, over a `MemoryFS`.
use mathlib.Core.List.{append_assoc, append-nil}
use mathlib.Core.Path.{subst}
use tilt_apiserver.Base.{
  ◌≡◌, refl, sym, ap, List, [], ◌∷◌, ◌++◌, map, Option, none, some, ok, err, Error, arith,
}
use tilt_apiserver.Storage.Objects.{Machinery}
use tilt_apiserver.Storage.Registry.{Registry}
use tilt_apiserver.Storage.FileSystem.{FileSystem}
use tilt_apiserver.Storage.MemoryFs.{MemoryFs, memory_fs}
use tilt_apiserver.Storage.MemoryFs.Files.{view}
use tilt_apiserver.Storage.WatchSet.{
  WatchNode, WatchSet, sending, new_watch, set_node, start, Notifies,
}
use tilt_apiserver.Storage.WatchSet.Blocked.{Later, start_failed_blocks}
use tilt_apiserver.Storage.Rest.{
  FilepathRest, Context, Event, ListOptions, ObjectList, SelectionPredicate,
  new_selection_predicate, list,
}
use tilt_apiserver.Storage.Rest.Listing.{AllMatch, list-AllMatch, view-list}
use tilt_apiserver.Storage.Rest.Watch.{
  added_event, event_matches, add_init_events, get_init_events, watch,
}

module _ (m : Machinery) (g : Registry m) where
  add_init_events-map :
      (p : SelectionPredicate m g) (items : List m.Object) (events : List (Event m))
      → AllMatch m g p items
      → add_init_events m g p items events ≡ ok (events ++ map (added_event m g) items)
  unfolding add_init_events AllMatch
  add_init_events-map p [] events h = ap ok (sym (append-nil events))
  add_init_events-map p (obj ∷ items) events (h, hs) =
      let rest = add_init_events-map p items (events ++ added_event m g obj ∷ []) hs in
      let assoc = append_assoc events (added_event m g obj ∷ []) (map (added_event m g) items) in
      ground (arith, h, rest, assoc)

module _ (m : Machinery) (g : Registry m) (fs : FileSystem m) (f : FilepathRest) (ctx : Context)
    (options : Option (ListOptions g)) where
  get_failed :
      (s : fs.State) (e : Error)
      → (list m g fs f ctx options s).0 ≡ err e
      → (get_init_events m g fs f ctx options s).0 ≡ err e
  unfolding get_init_events
  get_failed s e h = ground (arith, h)

  watch_failed :
      (s : fs.State) (ws : WatchSet (Event m)) (e : Error)
      → (list m g fs f ctx options s).0 ≡ err e
      → let (w, ws') = new_watch ws in
        let p = event_matches m g (new_selection_predicate m g options) in
        ((watch m g fs f ctx options s ws).failed ≡ some e)
        × ((watch m g fs f ctx options s ws).watch_set ≡ (start w p (err e) ws').1)
  unfolding watch start
  watch_failed s ws e h = (rw (get_failed s e h) refl, rw (get_failed s e h) refl)

  -- If `List` fails, `Watch` returns its error, but the watch set has the watch: until that watch is
  -- stopped, or started again, no notification of any event completes, whatever other watches are
  -- made, started and stopped.
  pub watch_failed_blocks :
      (s : fs.State) (ws after : WatchSet (Event m)) (e : Error) (ev : Event m)
      (nodes' : List (WatchNode (Event m)))
      → (list m g fs f ctx options s).0 ≡ err e
      → Later (new_watch ws).0.id (watch m g fs f ctx options s ws).watch_set after
      → ((watch m g fs f ctx options s ws).failed ≡ some e) × (¬ Notifies ev after.nodes nodes')
  watch_failed_blocks s ws after e ev nodes' h l =
      let p = event_matches m g (new_selection_predicate m g options) in
      let (failed, same) = watch_failed s ws e h in
      (
        failed,
        start_failed_blocks ws p e ev after nodes'
            (subst (λ z. Later (new_watch ws).0.id z after) same l),
      )

module _ (m : Machinery) (g : Registry m) (f : FilepathRest) (ctx : Context)
    (options : Option (ListOptions g)) where
  -- The watch that `Watch` leaves in the set, if the objects that `List` returns are these.
  abbrev pub watch_of : WatchSet (Event m) → List m.Object → WatchNode (Event m)
  watch_of ws items = record (new_watch ws).0 {
    matches = event_matches m g (new_selection_predicate m g options);
    phase = sending (map (added_event m g) items);
    init_events = map (added_event m g) items;
  }

  get_listed :
      (s : MemoryFs) (l : ObjectList m)
      → (list m g (memory_fs m) f ctx options s).0 ≡ ok l
      → (get_init_events m g (memory_fs m) f ctx options s).0 ≡ ok (map (added_event m g) l.items)
  unfolding get_init_events
  get_listed s l h =
      let e =
        add_init_events-map m g (new_selection_predicate m g options) l.items []
          (list-AllMatch m g f ctx options s l h) in
      ground (arith, h, e)

  view-get_init_events :
      (s : MemoryFs) → view (get_init_events m g (memory_fs m) f ctx options s).1 ≡ view s
  unfolding get_init_events
  view-get_init_events s = ground (arith, view-list m g f ctx options s)

  -- If `List` succeeds, `Watch` returns no error, and registers a watch that begins by sending one
  -- event of type Added for each object of that list, in its order. No file is changed.
  pub watch-sends_listed :
      (s : MemoryFs) (ws : WatchSet (Event m)) (l : ObjectList m)
      → (list m g (memory_fs m) f ctx options s).0 ≡ ok l
      → let w = watch m g (memory_fs m) f ctx options s ws in
        (w.failed ≡ none)
        × (w.watch_set.nodes ≡ set_node (watch_of ws l.items) ws.nodes)
        × (view w.files ≡ view s)
  unfolding watch start new_watch
  watch-sends_listed s ws l h =
      let e = get_listed s l h in (rw e refl, rw e refl, view-get_init_events s)
