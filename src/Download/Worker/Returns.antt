-- ===== src/Download/Worker/Returns.antt =====
-- How the callbacks of src/download/worker.rs give a piece back to the queue.
use codecrafters_bittorrent.Prelude.{
  ℕ, ◌≡◌, refl, sym, false, ◌++◌, append-nil, inl, inr, List, [], Option, none, some, Result, ok,
  Bool-cases, arith,
}
use codecrafters_bittorrent.Peer.Connection.{PeerCommand, PeerEvent}
use codecrafters_bittorrent.Peer.Session.{reconnect}
use codecrafters_bittorrent.Download.Queue
use codecrafters_bittorrent.Download.Queue.{PieceQueue}
use codecrafters_bittorrent.Download.Worker.Ledger.{hand_of, Moves}
use codecrafters_bittorrent.Download.Worker.{
  DownloadState, Setting, PeerWorker, WorkerError, send, abandon_active_piece, on_connect,
  reconnecting, on_event,
}
use codecrafters_bittorrent.Download.Worker.Settlement.{abandon-Moves}

-- An open queue with some pieces added at its end, and no other change.
pub record Returned (q : PieceQueue) (hand : List ℕ) (q' : PieceQueue) : Type 0 where
  pub at_end : q.finished ≡ false → q'.queue ≡ q.queue ++ hand
  pub still_open : q'.finished ≡ q.finished
  pub none_completed : q'.completed ≡ q.completed
  pub same_total : q'.total_pieces ≡ q.total_pieces

abandon-Returned :
    (w : PeerWorker) (o : Option DownloadState)
    → w.active_download ≡ o
    → let r = (abandon_active_piece w).1 in
      Returned w.queue (hand_of o) r.queue × (r.output_file ≡ w.output_file)
unfolding abandon_active_piece Queue.push
abandon-Returned w none e =
    rw (e, abandon_active_piece)
      (
        record {
          at_end = λ _. sym (append-nil w.queue.queue);
          still_open = refl;
          none_completed = refl;
          same_total = refl;
        },
        refl,
      )
abandon-Returned w (some d) e =
    rw (e, abandon_active_piece)
      (
        record {
          at_end = λ opened. rw opened refl;
          still_open = ground arith;
          none_completed = ground arith;
          same_total = ground arith;
        },
        refl,
      )

-- What a call leaves that gives the piece in hand back: empty hands, the piece at the end of the queue, no
-- other change of the queue or the file, and a step of the fleet that completes and loses no piece.
pub record GivesBack {A : Type 0} (w : PeerWorker) (r : Result WorkerError A × PeerWorker)
    : Type 0 where
  pub returned : Returned w.queue (hand_of w.active_download) r.1.queue
  pub hand_empty : r.1.active_download ≡ none
  pub file_kept : r.1.output_file ≡ w.output_file
  pub moves : Moves w.queue (hand_of w.active_download) r.1.queue [] []

-- The peer has choked the client, or the connection has failed.
pub data IsInterruption : PeerEvent → Type 0 where
  choked : IsInterruption PeerEvent.choke
  disconnected : IsInterruption PeerEvent.io_error

on_connect-GivesBack : (c : Setting) (w : PeerWorker) → GivesBack w (on_connect c w)
unfolding on_connect send
on_connect-GivesBack c w =
    let (m, free, done) = abandon-Moves w w.active_download refl in
    let (back, file) = abandon-Returned w w.active_download refl in
    elim (Bool-cases (c.sends (abandon_active_piece w).1.sent PeerCommand.interested)) [
      | inl b ↦
          rw (done, b) (record { returned = back; hand_empty = free; file_kept = file; moves = m })
      | inr b ↦
          rw (done, b) (record { returned = back; hand_empty = free; file_kept = file; moves = m })
    ]

reconnecting-GivesBack :
    (c : Setting) (w : PeerWorker)
    → ((reconnecting c w).0 ≡ ok reconnect) × GivesBack w (reconnecting c w)
unfolding reconnecting
reconnecting-GivesBack c w =
    let (m, free, done) = abandon-Moves w w.active_download refl in
    let (back, file) = abandon-Returned w w.active_download refl in
    rw done (refl, record { returned = back; hand_empty = free; file_kept = file; moves = m })

-- A choke and a failed connection make the session reconnect, and they give the piece in hand back to
-- the queue: at its end when it is not finished, with no other change of the queue or the file,
-- completing and losing no piece, and with empty hands afterwards. The callback of a new connection
-- does the same, whether its command can be sent or not.
pub interruption-GivesBack :
    (c : Setting) (e : PeerEvent) (w : PeerWorker)
    → IsInterruption e
    → ((on_event c e w).0 ≡ ok reconnect)
      × GivesBack w (on_event c e w)
      × GivesBack w (on_connect c w)
unfolding on_event
interruption-GivesBack c _ w choked =
    let (again, back) = reconnecting-GivesBack c w in (again, back, on_connect-GivesBack c w)
interruption-GivesBack c _ w disconnected =
    let (again, back) = reconnecting-GivesBack c w in (again, back, on_connect-GivesBack c w)
