-- ===== src/Download/Queue/Condvar/Wakeups.antt =====
-- Sleepers and wake-ups of the condition variable of src/download/queue.rs.
use codecrafters_bittorrent.Prelude.{
  ℕ, suc, ◌+◌, ◌≤◌, ◌<◌, ◌≡◌, refl, ap, ◌⊎◌, inl, inr, true, false, List, [], ◌∷◌, ◌++◌, arith,
  length, length-append, Bool-cases,
}
use codecrafters_bittorrent.Download.Queue.{
  new, pop_from, pop, push, mark_completed, shutdown, wait_until_finished,
}
use codecrafters_bittorrent.Download.Queue.Condvar.{
  Sleeper, popper, manager, Monitor, start, after_pop, round, complete, close, wake, Step, arrives,
  resumes, pushes_closed, pushes, pushes_waking, completes, closes, wakes, Reach, here, next,
}

-- How many of the threads are the manager's.
abbrev pub managers : List Sleeper → ℕ
managers [] = 0
managers (popper ∷ ws) = managers ws
managers (manager ∷ ws) = suc (managers ws)

managers-append : (xs ys : List Sleeper) → managers (xs ++ ys) ≡ managers xs + managers ys
managers-append [] ys = omega arith
managers-append (popper ∷ xs) ys = managers-append xs ys
managers-append (manager ∷ xs) ys = omega (arith, managers-append xs ys)

abbrev one : Sleeper → ℕ
one w = managers (w ∷ [])

managers_middle :
    (w : Sleeper) (xs ys : List Sleeper) → managers (xs ++ w ∷ ys) ≡ one w + managers (xs ++ ys)
managers_middle popper xs ys =
    omega (arith, managers-append xs (popper ∷ ys), managers-append xs ys)
managers_middle manager xs ys =
    omega (arith, managers-append xs (manager ∷ ys), managers-append xs ys)

length_middle :
    (w : Sleeper) (xs ys : List Sleeper) → length (xs ++ w ∷ ys) ≡ suc (length (xs ++ ys))
length_middle w xs ys = omega (arith, length-append xs (w ∷ ys), length-append xs ys)

-- Nobody sleeps behind a finished queue; and while the manager does not wait on an open one, every
-- queued piece has an awake thread to take it, or nobody sleeps.
pub record Awake (m : Monitor) : Type 0 where
  pub over : m.shared.finished ≡ true → length m.sleeping ≡ 0
  pub served :
      m.shared.finished ≡ false
      → (0 < managers m.sleeping + managers m.woken)
        ⊎ (length m.shared.queue ≤ length m.woken)
        ⊎ (length m.sleeping ≡ 0)

-- The same of the other threads, while the thread `w` has the mutex.
record AwakeBut (w : Sleeper) (m : Monitor) : Type 0 where
  over : m.shared.finished ≡ true → length m.sleeping ≡ 0
  served :
      m.shared.finished ≡ false
      → (0 < one w + (managers m.sleeping + managers m.woken))
        ⊎ (length m.shared.queue ≤ suc (length m.woken))
        ⊎ (length m.sleeping ≡ 0)

after_pop-Awake :
    (m : Monitor) (xs : List ℕ)
    → m.shared.queue ≡ xs
    → AwakeBut popper m
    → Awake (after_pop m (pop_from m.shared xs))
unfolding after_pop pop_from
after_pop-Awake m [] e h = ground arith
after_pop-Awake m (x ∷ xs) e h = let front = ap length e in ground arith

round-Awake : (m : Monitor) (w : Sleeper) → AwakeBut w m → Awake (round m w)
unfolding round pop wait_until_finished
round-Awake m popper h = after_pop-Awake m m.shared.queue refl h
round-Awake m manager h = ground arith

arrives-AwakeBut : (m : Monitor) (w : Sleeper) → Awake m → AwakeBut w m
arrives-AwakeBut m w h = ground arith

resumes-AwakeBut :
    (m : Monitor) (w : Sleeper) (xs ys : List Sleeper)
    → m.woken ≡ xs ++ w ∷ ys
    → Awake m
    → AwakeBut w (record m { woken = xs ++ ys })
resumes-AwakeBut m w xs ys e h =
    let size = ap length e in
    let others = ap managers e in ground (arith, length_middle w xs ys, managers_middle w xs ys)

pushes_waking-Awake :
    (m : Monitor) (i : ℕ) (w : Sleeper) (xs ys : List Sleeper)
    → m.shared.finished ≡ false
    → m.sleeping ≡ xs ++ w ∷ ys
    → Awake m
    → Awake (wake (record m { shared = push m.shared i }) w (xs ++ ys))
unfolding push
pushes_waking-Awake m i w xs ys opened e h =
    let size = ap length e in
    let others = ap managers e in
    ground (
      arith,
      length_middle w xs ys,
      managers_middle w xs ys,
      managers_middle w [] m.woken,
      length-append m.shared.queue (i ∷ []),
    )

wakes-Awake :
    (m : Monitor) (w : Sleeper) (xs ys : List Sleeper)
    → m.sleeping ≡ xs ++ w ∷ ys
    → Awake m
    → Awake (wake m w (xs ++ ys))
wakes-Awake m w xs ys e h =
    let size = ap length e in
    let others = ap managers e in
    ground (arith, length_middle w xs ys, managers_middle w xs ys, managers_middle w [] m.woken)

complete-Awake : (m : Monitor) → Awake m → Awake (complete m)
unfolding complete mark_completed
complete-Awake m h = ground arith

close-Awake : (m : Monitor) → Awake m → Awake (close m)
unfolding close shutdown
close-Awake m h = ground arith

Step-Awake : {m n : Monitor} → Awake m → Step m n → Awake n
unfolding push
Step-Awake {m = m} h (arrives w) = round-Awake m w (arrives-AwakeBut m w h)
Step-Awake {m = m} h (resumes w xs ys e) =
    round-Awake (record m { woken = xs ++ ys }) w (resumes-AwakeBut m w xs ys e h)
Step-Awake h (pushes_closed i e) = ground arith
Step-Awake h (pushes i opened e) = ground arith
Step-Awake {m = m} h (pushes_waking i w xs ys opened e) = pushes_waking-Awake m i w xs ys opened e h
Step-Awake {m = m} h completes = complete-Awake m h
Step-Awake {m = m} h closes = close-Awake m h
Step-Awake {m = m} h (wakes w xs ys e) = wakes-Awake m w xs ys e h

pub Reach-Awake : (ids : List ℕ) {m : Monitor} → Reach (start ids) m → Awake m
unfolding new
Reach-Awake ids here = ground arith
Reach-Awake ids (next r st) = Step-Awake (Reach-Awake ids r) st

-- In every reachable state where no manager sleeps or has been woken: when a piece is queued and a
-- thread sleeps in `pop`, another thread has been woken and not yet run.
pub wakeup_pending :
    (ids : List ℕ) {m : Monitor}
    → Reach (start ids) m
    → managers m.sleeping + managers m.woken ≡ 0
    → 0 < length m.shared.queue
    → 0 < length m.sleeping
    → 0 < length m.woken
wakeup_pending ids {m} r alone queued asleep =
    let h = Reach-Awake ids r in
    elim (Bool-cases m.shared.finished) [
      | inl shut ↦ absurd (omega (arith, h.over shut))
      | inr opened ↦ ground (arith, h.served opened)
    ]

-- In every reachable state, once the queue is finished no thread sleeps on the condition variable, the
-- manager included.
pub finished_wakes_all :
    (ids : List ℕ) {m : Monitor}
    → Reach (start ids) m
    → wait_until_finished m.shared ≡ true
    → m.sleeping ≡ []
unfolding wait_until_finished
finished_wakes_all ids {m} r shut = ground (arith, (Reach-Awake ids r).over)

-- On an open queue where the manager sleeps beside a thread in `pop` and nobody is woken: a push can
-- lead to a state where a piece is queued, the thread in `pop` sleeps on, and nobody is woken.
pub push_may_wake_manager :
    (m : Monitor) (i : ℕ) (xs ys : List Sleeper)
    → m.shared.finished ≡ false
    → m.sleeping ≡ xs ++ manager ∷ ys
    → m.woken ≡ []
    → managers (xs ++ ys) < length (xs ++ ys)
    → (n : Monitor) × Reach m n
      × (0 < length n.shared.queue)
      × (n.woken ≡ [])
      × (managers n.sleeping < length n.sleeping)
unfolding round push wait_until_finished
push_may_wake_manager m i xs ys opened e none_woken popper_asleep =
    let pushed = wake (record m { shared = push m.shared i }) manager (xs ++ ys) in
    (
      round (record pushed { woken = m.woken }) manager,
      next (next here (pushes_waking i manager xs ys opened e)) (resumes manager [] m.woken refl),
      ground (arith, length-append m.shared.queue (i ∷ [])),
      ground arith,
      ground arith,
    )
