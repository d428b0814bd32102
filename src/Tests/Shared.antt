-- ===== src/Tests/Shared.antt =====
-- Runs of src/download/queue.rs and of its condition variable.
use codecrafters_bittorrent.Prelude.{◌<◌, ◌≡◌, refl, ◌↔◌, true, false, [], ◌∷◌, arith, length}
use codecrafters_bittorrent.Download.Queue.{new, push, pop, wait_until_finished, mark_completed}
use codecrafters_bittorrent.Download.Queue.Fleet
use codecrafters_bittorrent.Download.Queue.Fleet.{
  Fleet, count, Accounted, everywhere, takes, completes, ends, Reach-Accounted,
  finished_iff_written, lost_never_finished,
}
use codecrafters_bittorrent.Download.Queue.Condvar
use codecrafters_bittorrent.Download.Queue.Condvar.{Monitor, Sleeper, popper, manager}
use codecrafters_bittorrent.Download.Queue.Condvar.Wakeups.{
  managers, wakeup_pending, finished_wakes_all, push_may_wake_manager,
}

-- One piece, taken, and then completed or lost.
abbrev taken : Fleet
taken = record {
  shared = record {
    state = record { queue = []; completed = 0; finished = false };
    total_pieces = 1;
  };
  held = 7 ∷ [];
  written = [];
  lost = [];
}

taken_reached : Fleet.Reach (Fleet.start (7 ∷ [])) taken
unfolding new pop
taken_reached = Fleet.next Fleet.here (takes 7 taken.shared refl)

abbrev finished : Fleet
finished = record {
  shared = record {
    state = record { queue = []; completed = 1; finished = true };
    total_pieces = 1;
  };
  held = [];
  written = 7 ∷ [];
  lost = [];
}

finished_reached : Fleet.Reach (Fleet.start (7 ∷ [])) finished
unfolding mark_completed
finished_reached = Fleet.next taken_reached (completes 7 [] [] refl)

abbrev lossy : Fleet
lossy = record taken { held = []; lost = 7 ∷ [] }

lossy_reached : Fleet.Reach (Fleet.start (7 ∷ [])) lossy
lossy_reached = Fleet.next taken_reached (ends 7 [] [] refl)

Reach-Accounted_example : Accounted (7 ∷ []) taken × (everywhere 7 taken ≡ count 7 (7 ∷ []))
Reach-Accounted_example = Reach-Accounted (7 ∷ []) {s = taken} 7 (omega arith) taken_reached

finished_iff_written_example :
    ((wait_until_finished finished.shared ≡ true) ↔ (length finished.written ≡ 1))
    × (wait_until_finished finished.shared ≡ true
        → (finished.shared.queue ≡ [])
          × (finished.held ≡ [])
          × (finished.lost ≡ [])
          × (count 7 finished.written ≡ 1))
finished_iff_written_example =
    finished_iff_written (7 ∷ []) {s = finished} 7 (omega arith) (omega arith) finished_reached

lost_never_finished_example : wait_until_finished lossy.shared ≡ false
lost_never_finished_example =
    lost_never_finished (7 ∷ []) {s = lossy} {t = lossy} (omega arith) lossy_reached (omega arith)
      Fleet.here

-- A thread waits for a piece, which another one pushes.
abbrev served : Monitor
served = record { shared = push (new []) 5; sleeping = popper ∷ []; woken = popper ∷ [] }

served_reached : Condvar.Reach (Condvar.start []) served
unfolding new pop Condvar.round push
served_reached =
    Condvar.next
      (Condvar.next (Condvar.next Condvar.here (Condvar.arrives popper)) (Condvar.arrives popper))
      (Condvar.pushes_waking 5 popper [] (popper ∷ []) refl refl)

wakeup_pending_example : 0 < length served.woken
wakeup_pending_example = wakeup_pending [] {m = served} served_reached refl queued (omega arith)
  where
    queued : 0 < length served.shared.queue
    queued = unfold push in unfold new in omega arith

-- The manager waits, and the only piece is completed.
abbrev over : Monitor
over = record { shared = mark_completed (new (5 ∷ [])); sleeping = []; woken = manager ∷ [] }

over_reached : Condvar.Reach (Condvar.start (5 ∷ [])) over
unfolding new Condvar.round mark_completed wait_until_finished Condvar.complete
over_reached = Condvar.next (Condvar.next Condvar.here (Condvar.arrives manager)) Condvar.completes

finished_wakes_all_example : over.sleeping ≡ []
finished_wakes_all_example = finished_wakes_all (5 ∷ []) {m = over} over_reached shut
  where
    shut : wait_until_finished over.shared ≡ true
    shut = unfold wait_until_finished in unfold mark_completed in unfold new in refl

-- A thread waits for a piece, and the manager for the end.
abbrev waiting : Monitor
waiting = record { shared = new []; sleeping = manager ∷ popper ∷ []; woken = [] }

push_may_wake_manager_example :
    (n : Monitor) × Condvar.Reach waiting n
    × (0 < length n.shared.queue)
    × (n.woken ≡ [])
    × (managers n.sleeping < length n.sleeping)
push_may_wake_manager_example =
    push_may_wake_manager waiting 5 [] (popper ∷ []) opened refl refl (omega arith)
  where
    opened : waiting.shared.finished ≡ false
    opened = unfold new in refl
