-- ===== src/Storage/WatchSet/Ids.antt =====
-- The ids of the watches, in every set that the operations reach.
use tilt_apiserver.Base.{ℕ, ◌≤◌, ◌≡◌, Bool, true, false, ◌||◌, List, [], ◌∷◌, Result, ◌==◌}
use tilt_apiserver.Storage.WatchSet.{
  WatchNode, WatchSet, new_watch_set, new_watch, start, stop, Notifies,
}

module _ {E : Type 0} where
  abbrev pub has_id : ℕ → List (WatchNode E) → Bool
  has_id k [] = false
  has_id k (n ∷ nodes) = n.id == k || has_id k nodes

  abbrev pub Distinct : List (WatchNode E) → Type 0
  Distinct [] = Unit
  Distinct (n ∷ nodes) = (has_id n.id nodes ≡ false) × Distinct nodes

  -- The sets that the operations make of the new one, with the watches that `newWatch` has made, the
  -- last one first. What is started or stopped has the id of one of them: it is that watch, in some
  -- state.
  pub data Reachable : List (WatchNode E) → WatchSet E → Type 0 where
    none_made : Reachable [] new_watch_set
    made :
        {ws : List (WatchNode E)} {s : WatchSet E}
        → Reachable ws s
        → Reachable ((new_watch s).0 ∷ ws) (new_watch s).1
    began :
        {ws : List (WatchNode E)} {s : WatchSet E} (w : WatchNode E) (p : E → Result Bool)
        (events : Result (List E))
        → has_id w.id ws ≡ true
        → Reachable ws s
        → Reachable ws (start w p events s).1
    told :
        {ws : List (WatchNode E)} {s : WatchSet E} {ev : E} {nodes : List (WatchNode E)}
        → Notifies ev s.nodes nodes
        → Reachable ws s
        → Reachable ws (record s { nodes = nodes })
    stopped :
        {ws : List (WatchNode E)} {s : WatchSet E} (w : WatchNode E)
        → has_id w.id ws ≡ true
        → Reachable ws s
        → Reachable ws (stop w s).1

  -- The watches that were made have different ids, none above the counter, and each registered watch
  -- has the id of one of them, and no other registered watch has it.
  pub record IsNumbered (ws : List (WatchNode E)) (s : WatchSet E) : Type 0 where
    pub apart : Distinct ws
    pub below : (k : ℕ) → has_id k ws ≡ true → k ≤ s.counter
    pub one_each : Distinct s.nodes
    pub known : (k : ℕ) → has_id k s.nodes ≡ true → has_id k ws ≡ true
