-- ===== src/Storage/WatchSet/Sequence.antt =====
-- About a sequence of notifications of the same watches.
use mathlib.Core.Path.{subst}
use mathlib.Core.List.{append_assoc, append-nil}
use tilt_apiserver.Base.{◌≡◌, refl, sym, ap, ap₂, ◌∙◌, false, List, [], ◌∷◌, ◌++◌}
use tilt_apiserver.Storage.WatchSet.{
  WatchNode, take_update, Notifies, done, one, Step, consume, drop, receive, finish, Runs, here,
  next,
}
use tilt_apiserver.Storage.WatchSet.Order.{
  pending, matching, IsFaithful, AllFaithful, Notifies-IsFaithful, send_update_receives,
}

module _ {E : Type 0} where
  -- The watches are notified of the events, one after the other.
  pub data NotifiesAll : List E → List (WatchNode E) → List (WatchNode E) → Type 0 where
    no_more : {nodes : List (WatchNode E)} → NotifiesAll [] nodes nodes
    more :
        {ev : E} {events : List E} {u v w : List (WatchNode E)}
        → Notifies ev u v
        → NotifiesAll events v w
        → NotifiesAll (ev ∷ events) u w

  -- The watch is the same one, and has taken these events since.
  pub record Took (events : List E) (w v : WatchNode E) : Type 0 where
    pub taken : v.taken ≡ w.taken ++ events
    pub matches : v.matches ≡ w.matches
    pub init_events : v.init_events ≡ w.init_events

  abbrev AllTook : List E → List (WatchNode E) → List (WatchNode E) → Type 0
  AllTook events [] [] = Unit
  AllTook events [] (v ∷ after) = ⊥
  AllTook events (w ∷ nodes) [] = ⊥
  AllTook events (w ∷ nodes) (v ∷ after) = Took events w v × AllTook events nodes after

  -- What each watch has sent, or is about to send, after these events: until it is stopped, its
  -- initial events, and then those that match of the ones it had taken before and of these.
  abbrev pub AllDelivered : List E → List (WatchNode E) → List (WatchNode E) → Type 0
  AllDelivered events [] [] = Unit
  AllDelivered events [] (v ∷ after) = ⊥
  AllDelivered events (w ∷ nodes) [] = ⊥
  AllDelivered events (w ∷ nodes) (v ∷ after) =
      (v.stop_closed ≡ false
        → v.out ++ pending v.phase ≡ w.init_events ++ matching w.matches (w.taken ++ events))
      × AllDelivered events nodes after

  Took-self : (w : WatchNode E) → Took [] w w
  Took-self w = record { taken = sym (append-nil w.taken); matches = refl; init_events = refl }

  Took-trans :
      {xs ys : List E} {u v w : WatchNode E} → Took xs u v → Took ys v w → Took (xs ++ ys) u w
  Took-trans {xs} {ys} {u} h k = record {
    taken = k.taken ∙ ap (λ l. l ++ ys) h.taken ∙ append_assoc u.taken xs ys;
    matches = k.matches ∙ h.matches;
    init_events = k.init_events ∙ h.init_events;
  }

  Step-Took : {w v : WatchNode E} → Step w v → Took [] w v
  Step-Took (consume w e events p) = record {
    taken = sym (append-nil w.taken);
    matches = refl;
    init_events = refl;
  }
  Step-Took (drop w e events p q) = record {
    taken = sym (append-nil w.taken);
    matches = refl;
    init_events = refl;
  }
  Step-Took (receive w p) = record {
    taken = sym (append-nil w.taken);
    matches = refl;
    init_events = refl;
  }
  Step-Took (finish w p q) = record {
    taken = sym (append-nil w.taken);
    matches = refl;
    init_events = refl;
  }

  Runs-Took : {w v : WatchNode E} → Runs w v → Took [] w v
  Runs-Took (here {w}) = Took-self w
  Runs-Took (next s r) = Took-trans (Step-Took s) (Runs-Took r)

  take_update-Took : (ev : E) (w : WatchNode E) → Took (ev ∷ []) w (take_update ev w)
  unfolding take_update
  take_update-Took ev w = record { taken = refl; matches = refl; init_events = refl }

  Notifies-AllTook :
      {ev : E} {nodes after : List (WatchNode E)}
      → Notifies ev nodes after
      → AllTook (ev ∷ []) nodes after
  Notifies-AllTook done = tt
  Notifies-AllTook {ev} (one {w} {v} {u} r e n) = (
    Took-trans (Runs-Took r)
        (subst (Took (ev ∷ []) v) (sym (send_update_receives ev v u e).1) (take_update-Took ev v)),
    Notifies-AllTook n,
  )

  AllTook-self : (nodes : List (WatchNode E)) → AllTook [] nodes nodes
  AllTook-self [] = tt
  AllTook-self (w ∷ nodes) = (Took-self w, AllTook-self nodes)

  AllTook-trans :
      (xs ys : List E) (u v w : List (WatchNode E))
      → AllTook xs u v
      → AllTook ys v w
      → AllTook (xs ++ ys) u w
  AllTook-trans xs ys [] [] [] h k = tt
  AllTook-trans xs ys [] [] (c ∷ w) h k = k
  AllTook-trans xs ys [] (b ∷ v) w h k = absurd h
  AllTook-trans xs ys (a ∷ u) [] w h k = absurd h
  AllTook-trans xs ys (a ∷ u) (b ∷ v) [] h k = k
  AllTook-trans xs ys (a ∷ u) (b ∷ v) (c ∷ w) (h, hs) (k, ks) =
      (Took-trans h k, AllTook-trans xs ys u v w hs ks)

  NotifiesAll-AllTook :
      {events : List E} {nodes after : List (WatchNode E)}
      → NotifiesAll events nodes after
      → AllTook events nodes after
  NotifiesAll-AllTook (no_more {nodes}) = AllTook-self nodes
  NotifiesAll-AllTook (more {ev} {events} {u} {v} {w} n rest) =
      AllTook-trans (ev ∷ []) events u v w (Notifies-AllTook n) (NotifiesAll-AllTook rest)

  NotifiesAll-AllFaithful :
      {events : List E} {nodes after : List (WatchNode E)}
      → NotifiesAll events nodes after
      → AllFaithful nodes
      → AllFaithful after
  NotifiesAll-AllFaithful no_more h = h
  NotifiesAll-AllFaithful (more n rest) h = NotifiesAll-AllFaithful rest (Notifies-IsFaithful n h)

  AllTook-delivered :
      (events : List E) (nodes after : List (WatchNode E))
      → AllTook events nodes after
      → AllFaithful after
      → AllDelivered events nodes after
  unfolding IsFaithful
  AllTook-delivered events [] [] h k = tt
  AllTook-delivered events [] (v ∷ after) h k = h
  AllTook-delivered events (w ∷ nodes) [] h k = h
  AllTook-delivered events (w ∷ nodes) (v ∷ after) (h, hs) (k, ks) = (
    λ live. k live ∙ ap₂ (λ i l. i ++ l) h.init_events (ap₂ matching h.matches h.taken),
    AllTook-delivered events nodes after hs ks,
  )

  -- After notifications of some events, one after the other, of watches that were in order: each
  -- watch that is not stopped has handed its consumer, or is about to, its initial events and then
  -- the matching ones of those it had taken before and of these events, each once and in order.
  pub NotifiesAll-delivered :
      (events : List E) (nodes after : List (WatchNode E))
      → AllFaithful nodes
      → NotifiesAll events nodes after
      → AllDelivered events nodes after
  NotifiesAll-delivered events nodes after h n =
      AllTook-delivered events nodes after (NotifiesAll-AllTook n) (NotifiesAll-AllFaithful n h)
