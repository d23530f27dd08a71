-- ===== src/Storage/WatchSet/Blocked.antt =====
-- About a watch whose start failed.
use tilt_apiserver.Base.{
  ◌≡◌, ◌≢◌, refl, ℕ, Bool, List, [], ◌∷◌, some, Result, ok, err, Error, ◌==◌, arith, Bool-cases,
  inl, inr,
}
use tilt_apiserver.Storage.WatchSet.{
  WatchNode, WatchSet, not_started, new_watch, set_node, delete_node, start, stop, send_update,
  Step, consume, drop, receive, finish, Runs, here, next, Notifies, done, one,
}

module _ {E : Type 0} where
  -- A watch that is not started makes no move.
  Step-not_started : {w v : WatchNode E} → Step w v → w.phase ≡ not_started → ⊥
  Step-not_started (consume w e events p) h = ground (arith, p)
  Step-not_started (drop w e events p q) h = ground (arith, p)
  Step-not_started (receive w p) h = ground (arith, p)
  Step-not_started (finish w p q) h = ground (arith, p)

  blocks :
      (ev : E) {w v u : WatchNode E}
      → Runs w v
      → w.phase ≡ not_started
      → send_update ev v ≡ some u
      → ⊥
  unfolding send_update
  blocks ev here h e = ground arith
  blocks ev (next s r) h e = Step-not_started s h

  -- The watch of the id in the list is not started.
  pub data HasIdle (k : ℕ) : List (WatchNode E) → Type 0 where
    first :
        (w : WatchNode E) (nodes : List (WatchNode E))
        → w.phase ≡ not_started
        → w.id ≡ k
        → HasIdle k (w ∷ nodes)
    later : (w : WatchNode E) {nodes : List (WatchNode E)} → HasIdle k nodes → HasIdle k (w ∷ nodes)

  Notifies-idle :
      {k : ℕ} {ev : E} {nodes nodes' : List (WatchNode E)}
      → Notifies ev nodes nodes'
      → HasIdle k nodes
      → ⊥
  Notifies-idle {k} {ev} done i = elim i [ ]
  Notifies-idle {k} {ev} (one r e n) (first w nodes p q) = blocks ev r p e
  Notifies-idle {k} {ev} (one r e n) (later w i) = Notifies-idle n i

  HasIdle-set_node :
      (w : WatchNode E) (nodes : List (WatchNode E))
      → w.phase ≡ not_started
      → HasIdle w.id (set_node w nodes)
  unfolding set_node
  HasIdle-set_node w [] h = first w [] h refl
  HasIdle-set_node w (n ∷ nodes) h = elim (Bool-cases (n.id == w.id)) [
    | inl e ↦ rw e (first w nodes h refl)
    | inr e ↦ rw e (later n (HasIdle-set_node w nodes h))
  ]

  HasIdle-set_other :
      {k : ℕ} (w : WatchNode E) (nodes : List (WatchNode E))
      → w.id ≢ k
      → HasIdle k nodes
      → HasIdle k (set_node w nodes)
  unfolding set_node
  HasIdle-set_other {k} w [] other i = elim i [ ]
  HasIdle-set_other {k} w (n ∷ nodes) other (first v _ p q) = elim (Bool-cases (n.id == w.id)) [
    | inl e ↦ absurd (ground (arith, e, q, other))
    | inr e ↦ rw e (first n (set_node w nodes) p q)
  ]
  HasIdle-set_other {k} w (n ∷ nodes) other (later v i) = elim (Bool-cases (n.id == w.id)) [
    | inl e ↦ rw e (later w i)
    | inr e ↦ rw e (later n (HasIdle-set_other w nodes other i))
  ]

  HasIdle-delete_other :
      {k : ℕ} (j : ℕ) (nodes : List (WatchNode E))
      → j ≢ k
      → HasIdle k nodes
      → HasIdle k (delete_node j nodes)
  unfolding delete_node
  HasIdle-delete_other {k} j [] other i = elim i [ ]
  HasIdle-delete_other {k} j (n ∷ nodes) other (first v _ p q) = elim (Bool-cases (n.id == j)) [
    | inl e ↦ absurd (ground (arith, e, q, other))
    | inr e ↦ rw e (first n (delete_node j nodes) p q)
  ]
  HasIdle-delete_other {k} j (n ∷ nodes) other (later v i) = elim (Bool-cases (n.id == j)) [
    | inl e ↦ rw e (HasIdle-delete_other j nodes other i)
    | inr e ↦ rw e (later n (HasIdle-delete_other j nodes other i))
  ]

  -- What becomes of a set while the watch of an id is neither started again nor stopped.
  pub data Later (k : ℕ) (s : WatchSet E) : WatchSet E → Type 0 where
    unchanged : Later k s s
    made : {t : WatchSet E} → Later k s t → Later k s (new_watch t).1
    began :
        {t : WatchSet E} (w : WatchNode E) (p : E → Result Bool) (events : Result (List E))
        → w.id ≢ k
        → Later k s t
        → Later k s (start w p events t).1
    told :
        {t : WatchSet E} {ev : E} {nodes : List (WatchNode E)}
        → Notifies ev t.nodes nodes
        → Later k s t
        → Later k s (record t { nodes = nodes })
    stopped : {t : WatchSet E} (w : WatchNode E) → w.id ≢ k → Later k s t → Later k s (stop w t).1

  HasIdle-start :
      {k : ℕ} (w : WatchNode E) (p : E → Result Bool) (events : Result (List E)) (t : WatchSet E)
      → w.id ≢ k
      → HasIdle k t.nodes
      → HasIdle k (start w p events t).1.nodes
  unfolding start
  HasIdle-start w p (ok events) t other i = HasIdle-set_other _ t.nodes other i
  HasIdle-start w p (err e) t other i = HasIdle-set_other w t.nodes other i

  Later-HasIdle : {k : ℕ} {s t : WatchSet E} → Later k s t → HasIdle k s.nodes → HasIdle k t.nodes
  unfolding new_watch stop
  Later-HasIdle unchanged i = i
  Later-HasIdle (made l) i = Later-HasIdle l i
  Later-HasIdle (began {t} w p events other l) i =
      HasIdle-start w p events t other (Later-HasIdle l i)
  Later-HasIdle (told n l) i = absurd (Notifies-idle n (Later-HasIdle l i))
  Later-HasIdle (stopped {t} w other l) i =
      HasIdle-delete_other w.id t.nodes other (Later-HasIdle l i)

  -- After `Start` has failed to compute the initial events of a new watch, no notification of any
  -- event completes until that watch is stopped: it is registered, and nothing reads its channel.
  pub start_failed_blocks :
      (s : WatchSet E) (p : E → Result Bool) (e : Error) (ev : E) (t : WatchSet E)
      (nodes' : List (WatchNode E))
      → let (w, s') = new_watch s in
        Later w.id (start w p (err e) s').1 t → ¬ Notifies ev t.nodes nodes'
  unfolding start new_watch
  start_failed_blocks s p e ev t nodes' l n =
      Notifies-idle n (Later-HasIdle l (HasIdle-set_node _ s.nodes refl))
