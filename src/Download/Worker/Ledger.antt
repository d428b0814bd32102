-- ===== src/Download/Worker/Ledger.antt =====
-- The piece in the hand of a worker of src/download/worker.rs, as steps of the fleet: how a call settles
-- what it holds.
use codecrafters_bittorrent.Prelude.{
  ℕ, ◌≡◌, refl, ◌⊎◌, List, [], ◌∷◌, ◌++◌, Option, none, some, Result, err,
}
use codecrafters_bittorrent.Download.Queue
use codecrafters_bittorrent.Download.Queue.{PieceQueue, piece}
use codecrafters_bittorrent.Download.Queue.Fleet.{
  Fleet, takes, gives_back, completes, ends, Reach, here, next, Reach-trans,
}
use codecrafters_bittorrent.Download.Worker.{
  DownloadState, PeerWorker, WorkerError, persist_failed, panicked,
}

-- The piece in a worker's hand.
abbrev pub hand_of : Option DownloadState → List ℕ
hand_of none = []
hand_of (some d) = d.index ∷ []

abbrev pub fleet : PieceQueue → List ℕ → List ℕ → List ℕ → Fleet
fleet q held written lost = record { shared = q; held = held; written = written; lost = lost }

-- Steps of one worker, whatever the others hold: from a queue and a hand to others. No piece is lost, and the
-- pieces `completed` are written, and no other.
pub record Moves (q : PieceQueue) (hand : List ℕ) (q' : PieceQueue) (hand' completed : List ℕ)
    : Type 0 where
  pub steps :
      (others written lost : List ℕ)
      → Reach
          (fleet q (hand ++ others) written lost)
          (fleet q' (hand' ++ others) (completed ++ written) lost)

-- The same where the piece in hand is lost.
pub record Loses (q : PieceQueue) (i : ℕ) (q' : PieceQueue) : Type 0 where
  pub steps :
      (others written lost : List ℕ)
      → Reach (fleet q (i ∷ others) written lost) (fleet q' others written (i ∷ lost))

-- How a call settles: no piece is lost, or the error is one of the two that lose the piece in hand.
pub data Settles {A : Type 0} (q : PieceQueue) (hand completed : List ℕ)
    (r : Result WorkerError A × PeerWorker) : Type 0 where
  keeps :
      Moves q hand r.1.queue (hand_of r.1.active_download) completed → Settles q hand completed r
  drops :
      (i : ℕ) (q' : PieceQueue)
      → (r.0 ≡ err persist_failed) ⊎ (r.0 ≡ err panicked)
      → Moves q hand q' (i ∷ []) completed
      → Loses q' i r.1.queue
      → r.1.active_download ≡ none
      → Settles q hand completed r

pub Moves-refl : (q : PieceQueue) (hand : List ℕ) → Moves q hand q hand []
Moves-refl q hand = record { steps = λ others written lost. here }

pub Moves-gives_back : (q : PieceQueue) (i : ℕ) → Moves q (i ∷ []) (Queue.push q i) [] []
Moves-gives_back q i = record {
  steps = λ others written lost. next here (gives_back i [] others refl);
}

pub Moves-takes :
    (q q' : PieceQueue) (i : ℕ) → Queue.pop q ≡ (q', piece i) → Moves q [] q' (i ∷ []) []
Moves-takes q q' i e = record { steps = λ others written lost. next here (takes i q' e) }

pub Loses-ends : (q : PieceQueue) (i : ℕ) → Loses q i q
Loses-ends q i = record { steps = λ others written lost. next here (ends i [] others refl) }

Moves-trans :
    (q q' q'' : PieceQueue) (h h' h'' : List ℕ)
    → Moves q h q' h' []
    → Moves q' h' q'' h'' []
    → Moves q h q'' h'' []
Moves-trans q q' q'' h h' h'' m n = record {
  steps = λ others written lost.
      Reach-trans (m.steps others written lost) (n.steps others written lost);
}

pub Settles-after :
    {A : Type 0} (q q' : PieceQueue) (h h' : List ℕ) (r : Result WorkerError A × PeerWorker)
    → Moves q h q' h' []
    → Settles q' h' [] r
    → Settles q h [] r
Settles-after q q' h h' r m (keeps n) = keeps (Moves-trans q q' _ h h' _ m n)
Settles-after q q' h h' r m (drops i q'' e n l a) =
    drops i q'' e (Moves-trans q q' q'' h h' _ m n) l a

-- A piece in hand is completed, and what follows completes no other.
Moves-completes :
    (q q' : PieceQueue) (i : ℕ) (h : List ℕ)
    → Moves (Queue.mark_completed q) [] q' h []
    → Moves q (i ∷ []) q' h (i ∷ [])
Moves-completes q q' i h m = record {
  steps = λ others written lost.
      Reach-trans (next here (completes i [] others refl)) (m.steps others (i ∷ written) lost);
}

pub Settles-completes :
    {A : Type 0} (q : PieceQueue) (i : ℕ) (r : Result WorkerError A × PeerWorker)
    → Settles (Queue.mark_completed q) [] [] r
    → Settles q (i ∷ []) (i ∷ []) r
Settles-completes q i r (keeps m) = keeps (Moves-completes q _ i _ m)
Settles-completes q i r (drops j q' e m l a) = drops j q' e (Moves-completes q q' i _ m) l a
