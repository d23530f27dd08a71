-- ===== src/Storage/WatchSet/Order.antt =====
-- About what the consumer of a watch receives.
use mathlib.Core.List.{append_assoc, append-nil}
use mathlib.Core.Path.{subst}
use tilt_apiserver.Base.{
  ◌≡◌, refl, sym, ap, ◌∙◌, Bool, false, List, [], ◌∷◌, ◌++◌, some, Result, arith, Bool-cases, inl,
  inr, if◌then◌else◌,
}
use tilt_apiserver.Storage.WatchSet.{
  WatchNode, Phase, not_started, sending, receiving, closed, is_accepted, take_update, send_update,
  Notifies, done, one, Step, consume, drop, receive, finish, Runs, here, next,
}

module _ {E : Type 0} where
  abbrev pub pending : Phase E → List E
  pending (sending events) = events
  pending not_started = []
  pending receiving = []
  pending closed = []

  abbrev pub matching : (E → Result Bool) → List E → List E
  matching p [] = []
  matching p (e ∷ events) = if is_accepted (p e) then e ∷ matching p events else matching p events

  matching-append :
      (p : E → Result Bool) (xs ys : List E)
      → matching p (xs ++ ys) ≡ matching p xs ++ matching p ys
  matching-append p [] ys = refl
  matching-append p (x ∷ xs) ys = ground (arith, matching-append p xs ys)

  -- Until it is stopped, a watch has sent, or is about to send, the initial events and then the
  -- matching events that it took, each once and in order.
  unfoldable pub IsFaithful : WatchNode E → Type 0
  IsFaithful w =
      w.stop_closed ≡ false → w.out ++ pending w.phase ≡ w.init_events ++ matching w.matches w.taken

  abbrev pub AllFaithful : List (WatchNode E) → Type 0
  AllFaithful [] = Unit
  AllFaithful (w ∷ nodes) = IsFaithful w × AllFaithful nodes

  -- The event is the last one that every watch took.
  abbrev pub AllTook : E → List (WatchNode E) → Type 0
  AllTook ev [] = Unit
  AllTook ev (w ∷ nodes) = ((before : List E) × (w.taken ≡ before ++ ev ∷ [])) × AllTook ev nodes

  pub Step-IsFaithful : {w v : WatchNode E} → Step w v → IsFaithful w → IsFaithful v
  unfolding IsFaithful
  Step-IsFaithful (consume w e events p) h live =
      append_assoc w.out (e ∷ []) events ∙ rw p at (h live)
  Step-IsFaithful (drop w e events p q) h live = absurd (ground (arith, q))
  Step-IsFaithful (receive w p) h live = rw p at (h live)
  Step-IsFaithful (finish w p q) h live = rw p at (h live)

  pub Runs-IsFaithful : {w v : WatchNode E} → Runs w v → IsFaithful w → IsFaithful v
  Runs-IsFaithful here h = h
  Runs-IsFaithful (next s r) h = Runs-IsFaithful r (Step-IsFaithful s h)

  matching_snoc :
      (p : E → Result Bool) (events : List E) (ev : E)
      → matching p (events ++ ev ∷ [])
        ≡ matching p events ++ (if is_accepted (p ev) then ev ∷ [] else [])
  matching_snoc p events ev = matching-append p events (ev ∷ [])

  extended :
      (p : E → Result Bool) (out init taken : List E) (ev : E)
      → out ++ [] ≡ init ++ matching p taken
      → out ++ pending (if is_accepted (p ev) then sending (ev ∷ []) else receiving)
        ≡ init ++ matching p (taken ++ ev ∷ [])
  extended p out init taken ev h =
      let g = sym (append-nil out) ∙ h in
      elim (Bool-cases (is_accepted (p ev))) [
        | inl e ↦
            rw (matching_snoc p taken ev, e)
              (ap (λ l. l ++ ev ∷ []) g ∙ append_assoc init (matching p taken) (ev ∷ []))
        | inr e ↦
            rw (matching_snoc p taken ev, e)
              (h ∙ ap (λ l. init ++ l) (sym (append-nil (matching p taken))))
      ]

  take_update-IsFaithful :
      (ev : E) (w : WatchNode E)
      → w.phase ≡ receiving
      → IsFaithful w
      → IsFaithful (take_update ev w)
  unfolding IsFaithful take_update
  take_update-IsFaithful ev w p h live =
      extended w.matches w.out w.init_events w.taken ev (rw p at (h live))

  pub send_update_receives :
      (ev : E) (w v : WatchNode E)
      → send_update ev w ≡ some v
      → (w.phase ≡ receiving) × (v ≡ take_update ev w)
  unfolding send_update
  send_update_receives ev w v e = (ground arith, ground arith)

  pub Notifies-IsFaithful :
      {ev : E} {nodes nodes' : List (WatchNode E)}
      → Notifies ev nodes nodes'
      → AllFaithful nodes
      → AllFaithful nodes'
  Notifies-IsFaithful done h = h
  Notifies-IsFaithful {ev} (one {w} {v} {u} r e n) (h, hs) =
      let (p, q) = send_update_receives ev v u e in
      (
        subst IsFaithful (sym q) (take_update-IsFaithful ev v p (Runs-IsFaithful r h)),
        Notifies-IsFaithful n hs,
      )

  Notifies-AllTook :
      {ev : E} {nodes nodes' : List (WatchNode E)} → Notifies ev nodes nodes' → AllTook ev nodes'
  unfolding take_update
  Notifies-AllTook done = tt
  Notifies-AllTook {ev} (one {w} {v} {u} r e n) =
      ((v.taken, ap (λ x. x.taken) (send_update_receives ev v u e).1), Notifies-AllTook n)

  -- After a notification of a set whose watches were in order has gone through, the event is the
  -- last that each watch took, and each watch that was not stopped has handed its consumer, or is
  -- about to, the initial events and then the matching ones of those it took, each once and in
  -- order.
  pub Notifies-in_order :
      (ev : E) (nodes nodes' : List (WatchNode E))
      → AllFaithful nodes
      → Notifies ev nodes nodes'
      → AllFaithful nodes' × AllTook ev nodes'
  Notifies-in_order ev nodes nodes' h n = (Notifies-IsFaithful n h, Notifies-AllTook n)

  -- A watch that was just started is in order.
  pub start-IsFaithful :
      (w : WatchNode E) (p : E → Result Bool) (events : List E)
      → IsFaithful (record w {
        matches = p;
        phase = sending events;
        init_events = events;
        out = [];
        taken = [];
      })
  unfolding IsFaithful
  start-IsFaithful w p events live = sym (append-nil events)
