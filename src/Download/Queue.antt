-- ===== src/Download/Queue.antt =====
-- src/download/queue.rs: the queue of piece indices that the workers of a download share. Each
-- function is one critical section of the mutex; a wait on the condition variable is the outcome
-- `parked`, after which a thread runs the round again.
pub mod Fleet
pub mod Condvar
use codecrafters_bittorrent.Prelude.{
  ℕ, ◌+◌, ◌%◌, ◌^◌, Bool, true, false, List, [], ◌∷◌, ◌++◌, length, ◌==◌, if◌then◌else◌,
}
use codecrafters_bittorrent.Utils.Words.{u32_mod}

pub record QueueState : Type 0 where
  pub queue : List ℕ
  pub completed : ℕ
  pub finished : Bool

pub record PieceQueue : Type 0 where
  pub state : QueueState
  pub open state use *
  pub total_pieces : ℕ

unfoldable pub new : List ℕ → PieceQueue
new piece_ids = record {
  state = record { queue = piece_ids; completed = 0; finished = false };
  total_pieces = length piece_ids % u32_mod;
}

unfoldable pub empty : PieceQueue
unfolding new
empty = new []

-- What a round of the loop in `pop` comes to.
pub data Popped : Type 0 where
  piece : ℕ → Popped
  closed : Popped
  parked : Popped

unfoldable pub pop_from : PieceQueue → List ℕ → PieceQueue × Popped
pop_from q [] = (q, if q.finished then closed else parked)
pop_from q (i ∷ rest) = (record q { state = record (q.state) { queue = rest } }, piece i)

unfoldable pub pop : PieceQueue → PieceQueue × Popped
unfolding pop_from
pop q = pop_from q q.queue

unfoldable pub push : PieceQueue → ℕ → PieceQueue
push q i =
    if q.finished then q else record q { state = record (q.state) { queue = q.queue ++ i ∷ [] } }

unfoldable pub mark_completed : PieceQueue → PieceQueue
mark_completed q =
    if q.finished
    then q
    else (let done = (q.completed + 1) % u32_mod in
        record q {
          state = record (q.state) {
            completed = done;
            finished = if done == q.total_pieces then true else q.finished;
          };
        })

unfoldable pub shutdown : PieceQueue → PieceQueue
shutdown q = if q.finished then q else record q { state = record (q.state) { finished = true } }

unfoldable pub is_shutdown : PieceQueue → Bool
is_shutdown q = q.finished

-- A round of `wait_until_finished`: whether the loop is left.
unfoldable pub wait_until_finished : PieceQueue → Bool
wait_until_finished q = q.finished
