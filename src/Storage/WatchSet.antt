-- ===== src/Storage/WatchSet.antt =====
-- pkg/storage/filepath/watchset.go: the set of watches, and the goroutine of each watch as a state
-- machine over its unbuffered channels.
pub mod Order
pub mod Sequence
pub mod Ids
pub mod Blocked
pub mod Progress
use tilt_apiserver.Base.{
  ℕ, ◌+◌, ◌≡◌, Bool, true, false, List, [], ◌∷◌, ◌++◌, Option, none, some, Result, ok, err, Error,
  ◌==◌, if◌then◌else◌,
}

-- Where the goroutine of a watch stands: it is not started, it sends these events to `outCh` one
-- after the other, it waits at `updateCh`, or it has closed `outCh`.
pub data Phase (E : Type 0) : Type 0 where
  not_started : Phase E
  sending : List E → Phase E
  receiving : Phase E
  closed : Phase E

-- `watchNode`. `out` is what the consumer has received so far. `stop_closed` and `update_closed`
-- say whether the two channels are closed. The specification also remembers the initial events,
-- and the events that were taken from `updateCh`.
pub record WatchNode (E : Type 0) : Type 0 where
  pub id : ℕ
  pub matches : E → Result Bool
  pub phase : Phase E
  pub stop_closed : Bool
  pub update_closed : Bool
  pub out : List E
  pub init_events : List E
  pub taken : List E

-- The map of the registered watches, in one of its orders, and the counter.
pub record WatchSet (E : Type 0) : Type 0 where
  pub nodes : List (WatchNode E)
  pub counter : ℕ

-- Whether an event goes on to the consumer: it does not when its match fails.
abbrev pub is_accepted : Result Bool → Bool
is_accepted (ok matched) = matched
is_accepted (err e) = false

module _ {E : Type 0} where
  unfoldable pub new_watch_set : WatchSet E
  new_watch_set = record { nodes = []; counter = 0 }

  -- A watch with a new id. It is not registered yet, and its predicate comes with `start`.
  unfoldable pub new_watch : WatchSet E → WatchNode E × WatchSet E
  new_watch s = (
    record {
      id = s.counter + 1;
      matches = λ e. ok true;
      phase = not_started;
      stop_closed = false;
      update_closed = false;
      out = [];
      init_events = [];
      taken = [];
    },
    record s { counter = s.counter + 1 },
  )

  -- `s.nodes[w.id] = w`
  unfoldable pub set_node : WatchNode E → List (WatchNode E) → List (WatchNode E)
  set_node w [] = w ∷ []
  set_node w (n ∷ nodes) = if n.id == w.id then w ∷ nodes else n ∷ set_node w nodes

  -- `delete(s.nodes, w.id)`
  unfoldable pub delete_node : ℕ → List (WatchNode E) → List (WatchNode E)
  delete_node k [] = []
  delete_node k (n ∷ nodes) = let rest = delete_node k nodes in if n.id == k then rest else n ∷ rest

  -- `Start`: the watch is registered before its initial events are computed, and stays registered
  -- when that fails. The goroutine is started only if it does not.
  unfoldable pub start :
      WatchNode E → (E → Result Bool) → Result (List E) → WatchSet E → Option Error × WatchSet E
  start w p (err e) s = (some e, record s { nodes = set_node w s.nodes })
  start w p (ok events) s = (
    none,
    record s {
      nodes =
          set_node (record w { matches = p; phase = sending events; init_events = events }) s.nodes;
    },
  )

  -- What the goroutine does with an event that it takes: it goes on to the consumer if it matches.
  unfoldable pub take_update : E → WatchNode E → WatchNode E
  take_update ev w = record w {
    phase = if is_accepted (w.matches ev) then sending (ev ∷ []) else receiving;
    taken = w.taken ++ ev ∷ [];
  }

  -- `w.updateCh <- ev`: the send needs the goroutine at its receive.
  unfoldable pub send_update : E → WatchNode E → Option (WatchNode E)
  send_update ev w = elim w.phase [
    | not_started ↦ none
    | sending events ↦ none
    | receiving ↦ some (take_update ev w)
    | closed ↦ none
  ]

  -- The moves of the goroutine, by itself and with its consumer. The select over `stopCh` and
  -- `outCh` can drop an event only after `Stop`.
  pub data Step : WatchNode E → WatchNode E → Type 0 where
    consume :
        (w : WatchNode E) (e : E) (events : List E)
        → w.phase ≡ sending (e ∷ events)
        → Step w (record w { phase = sending events; out = w.out ++ e ∷ [] })
    drop :
        (w : WatchNode E) (e : E) (events : List E)
        → w.phase ≡ sending (e ∷ events)
        → w.stop_closed ≡ true
        → Step w (record w { phase = sending events })
    receive : (w : WatchNode E) → w.phase ≡ sending [] → Step w (record w { phase = receiving })
    finish :
        (w : WatchNode E)
        → w.phase ≡ receiving
        → w.update_closed ≡ true
        → Step w (record w { phase = closed })

  pub data Runs : WatchNode E → WatchNode E → Type 0 where
    here : {w : WatchNode E} → Runs w w
    next : {u v w : WatchNode E} → Step u v → Runs v w → Runs u w

  -- `Stop` closes `stopCh`, takes the watch out of the set, and closes `updateCh`. A second call,
  -- which panics at the closed channel, is left out.
  unfoldable pub stop : WatchNode E → WatchSet E → WatchNode E × WatchSet E
  stop w s = (
    record w { stop_closed = true; update_closed = true },
    record s { nodes = delete_node w.id s.nodes },
  )

  -- The loop of `notifyWatchers`, which holds the read lock: each watch runs until it takes the
  -- event.
  pub data Notifies (ev : E) : List (WatchNode E) → List (WatchNode E) → Type 0 where
    done : Notifies ev [] []
    one :
        {w v u : WatchNode E} {nodes nodes' : List (WatchNode E)}
        → Runs w v
        → send_update ev v ≡ some u
        → Notifies ev nodes nodes'
        → Notifies ev (w ∷ nodes) (u ∷ nodes')
