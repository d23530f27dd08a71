-- ===== src/Tests/Watch.antt =====
-- Watches, and the files of the operating system, on concrete runs.
use tilt_apiserver.Base.{List, ◌≡◌, false, refl, ℕ, true, false, [], ◌∷◌, none, ok}
use tilt_apiserver.Storage.MemoryFs.{has_suffix}
use tilt_apiserver.Storage.Rest.{new_selection_predicate}
use tilt_apiserver.Storage.RealFs.{folder, file, Os, visit_dir, remove_matching}
use tilt_apiserver.Storage.RealFs.Deadlock.{here, past_folder, delete_collection_blocks}
use tilt_apiserver.Storage.WatchSet.{
  WatchNode, sending, receiving, new_watch_set, new_watch, start, take_update, send_update, consume,
  receive, here as stay, next, Notifies, one, done, WatchSet,
}
use tilt_apiserver.Storage.WatchSet.Ids.{made, began}
use tilt_apiserver.Storage.WatchSet.Order.{start-IsFaithful}
use tilt_apiserver.Storage.WatchSet.Sequence.{AllDelivered, more, no_more, NotifiesAll-delivered}
use tilt_apiserver.Storage.WatchSet.Progress.{made as nothing, began as served}
use tilt_apiserver.Tests.Machine.{note, notes, note_registry}

-- A watch that begins with the event 1, when it is started, and when it waits.
abbrev pub started : WatchNode ℕ
started = record {
  id = 1;
  matches = λ e. ok true;
  phase = sending (1 ∷ []);
  stop_closed = false;
  update_closed = false;
  out = [];
  init_events = 1 ∷ [];
  taken = [];
}

abbrev pub waiting : WatchNode ℕ
waiting = record started { phase = receiving; out = 1 ∷ [] }

abbrev pub told : WatchNode ℕ
told = record waiting { phase = sending (2 ∷ []); taken = 2 ∷ [] }

notified_run : Notifies 2 (started ∷ []) (told ∷ [])
unfolding send_update take_update
notified_run = one (next (consume started 1 [] refl) (next (receive _ refl) stay)) refl done

abbrev told_again : WatchNode ℕ
told_again = record told { phase = sending (3 ∷ []); out = 1 ∷ 2 ∷ []; taken = 2 ∷ 3 ∷ [] }

again_run : Notifies 3 (told ∷ []) (told_again ∷ [])
unfolding send_update take_update
again_run = one (next (consume told 2 [] refl) (next (receive _ refl) stay)) refl done

NotifiesAll-delivered_example : AllDelivered (2 ∷ 3 ∷ []) (started ∷ []) (told_again ∷ [])
NotifiesAll-delivered_example =
    NotifiesAll-delivered (2 ∷ 3 ∷ []) (started ∷ []) (told_again ∷ [])
      (start-IsFaithful started (λ e. ok true) (1 ∷ []), tt)
      (more notified_run (more again_run no_more))

-- A directory with one note, which every read finds.
abbrev pub one_note : Os
one_note = record {
  Disk = Unit;
  remove = λ p d. (ok tt, d);
  stat = λ p d. true;
  mkdir_all = λ p d. (ok tt, d);
  read_file = λ p d. ok "hello";
  write_file = λ p content d. (ok tt, d);
  walk = λ p d. folder "/data" ∷ file "/data/web.json" "web.json" ∷ [];
}

suffix_run : has_suffix "web.json" ".json" ≡ true
unfolding has_suffix
suffix_run = refl

delete_collection_blocks_example :
    visit_dir notes one_note "/data"
      (remove_matching notes one_note note_registry
        (new_selection_predicate notes note_registry none))
      (record { disk = tt; rev = 1; locked = false })
    ≡ none
delete_collection_blocks_example =
    delete_collection_blocks notes one_note note_registry
      (new_selection_predicate notes note_registry none) "/data"
      (record { disk = tt; rev = 1; locked = false }) refl
      (past_folder "/data"
        (here "/data/web.json" "web.json" [] (note "hello" "") suffix_run refl refl))

-- A set in which one watch was made and started.
abbrev pub one_watch : WatchSet ℕ
one_watch =
    (start (new_watch (new_watch_set {E = ℕ})).0 (λ e. ok true) (ok [])
      (new_watch new_watch_set).1).1

abbrev one_made : List (WatchNode ℕ)
one_made = (new_watch new_watch_set).0 ∷ []
