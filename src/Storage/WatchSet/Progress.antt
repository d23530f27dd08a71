-- ===== src/Storage/WatchSet/Progress.antt =====
-- About notifications of watches that were started without an error.
use tilt_apiserver.Base.{◌≡◌, Bool, true, false, List, [], ◌∷◌, Result, ok}
use tilt_apiserver.Storage.WatchSet.{
  WatchNode, WatchSet, Phase, not_started, sending, receiving, closed, new_watch_set, new_watch,
  start, stop, Notifies,
}

module _ {E : Type 0} where
  -- The goroutine of the watch is started, and has not ended.
  abbrev pub is_live : Phase E → Bool
  is_live not_started = false
  is_live (sending events) = true
  is_live receiving = true
  is_live closed = false

  abbrev pub AllLive : List (WatchNode E) → Type 0
  AllLive [] = Unit
  AllLive (w ∷ nodes) = (is_live w.phase ≡ true) × AllLive nodes

  -- The sets that are made of the new one by watches that are started with their initial events, by
  -- notifications, and by stops.
  pub data Served : WatchSet E → Type 0 where
    made : Served new_watch_set
    began :
        {s : WatchSet E} (p : E → Result Bool) (events : List E)
        → Served s
        → Served (start (new_watch s).0 p (ok events) (new_watch s).1).1
    told :
        {s : WatchSet E} {ev : E} {nodes : List (WatchNode E)}
        → Notifies ev s.nodes nodes
        → Served s
        → Served (record s { nodes = nodes })
    stopped : {s : WatchSet E} (w : WatchNode E) → Served s → Served (stop w s).1
