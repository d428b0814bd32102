-- ===== src/Download/Queue/Condvar.antt =====
-- The condition variable of src/download/queue.rs. One variable serves both waits: of `pop`, for a
-- piece, and of `wait_until_finished`, for the end. `notify_one` wakes any one sleeper, the choice of
-- the scheduler; a sleeper may also wake for no reason.
pub mod Wakeups
use codecrafters_bittorrent.Prelude.{ℕ, ◌≡◌, Bool, true, false, List, [], ◌∷◌, ◌++◌, if◌then◌else◌}
use codecrafters_bittorrent.Download.Queue.{
  PieceQueue, Popped, piece, closed, parked, new, pop, push, mark_completed, shutdown,
  wait_until_finished,
}

-- A thread in `pop`, or the manager's in `wait_until_finished`.
pub data Sleeper : Type 0 where
  popper manager : Sleeper

pub record Monitor : Type 0 where
  pub shared : PieceQueue
  pub sleeping : List Sleeper
  pub woken : List Sleeper

abbrev pub start : List ℕ → Monitor
start ids = record { shared = new ids; sleeping = []; woken = [] }

unfoldable pub after_pop : Monitor → PieceQueue × Popped → Monitor
after_pop m (q, piece i) = record m { shared = q }
after_pop m (q, closed) = record m { shared = q }
after_pop m (q, parked) = record m { shared = q; sleeping = popper ∷ m.sleeping }

-- One round of a waiting loop, with the mutex taken.
unfoldable pub round : Monitor → Sleeper → Monitor
unfolding after_pop
round m popper = after_pop m (pop m.shared)
round m manager =
    if wait_until_finished m.shared then m else record m { sleeping = manager ∷ m.sleeping }

abbrev notify_all : Monitor → PieceQueue → Monitor
notify_all m q = record m { shared = q; sleeping = []; woken = m.sleeping ++ m.woken }

unfoldable pub complete : Monitor → Monitor
complete m =
    let q = mark_completed m.shared in
    if m.shared.finished then m else if q.finished then notify_all m q else record m { shared = q }

unfoldable pub close : Monitor → Monitor
close m = if m.shared.finished then m else notify_all m (shutdown m.shared)

-- `notify_one` over sleepers, by the one that is woken.
abbrev pub wake : Monitor → Sleeper → List Sleeper → Monitor
wake m w others = record m { sleeping = others; woken = w ∷ m.woken }

pub data Step (m : Monitor) : Monitor → Type 0 where
  arrives : (w : Sleeper) → Step m (round m w)
  resumes :
      (w : Sleeper) (xs ys : List Sleeper)
      → m.woken ≡ xs ++ w ∷ ys
      → Step m (round (record m { woken = xs ++ ys }) w)
  pushes_closed :
      (i : ℕ) → m.shared.finished ≡ true → Step m (record m { shared = push m.shared i })
  pushes :
      (i : ℕ)
      → m.shared.finished ≡ false
      → m.sleeping ≡ []
      → Step m (record m { shared = push m.shared i })
  pushes_waking :
      (i : ℕ) (w : Sleeper) (xs ys : List Sleeper)
      → m.shared.finished ≡ false
      → m.sleeping ≡ xs ++ w ∷ ys
      → Step m (wake (record m { shared = push m.shared i }) w (xs ++ ys))
  completes : Step m (complete m)
  closes : Step m (close m)
  wakes :
      (w : Sleeper) (xs ys : List Sleeper)
      → m.sleeping ≡ xs ++ w ∷ ys
      → Step m (wake m w (xs ++ ys))

pub data Reach (m : Monitor) : Monitor → Type 0 where
  here : Reach m m
  next : {t u : Monitor} → Reach m t → Step t u → Reach m u
