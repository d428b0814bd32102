-- ===== src/Download/Worker/Composed.antt =====
-- The worker of src/download/worker.rs as the handler of a session of src/peer/session.rs.
use codecrafters_bittorrent.Prelude.{Result, ◌≡◌, ok, err, refl, List, Option-cases, inl, inr, All}
use codecrafters_bittorrent.Peer.Connection.{PeerCommand}
use codecrafters_bittorrent.Peer.Session.{PeerSessionConfig, Attempt, run, continue}
use codecrafters_bittorrent.Peer.Session.Rounds.{KeptBy, Undisturbed}
use codecrafters_bittorrent.Peer.Session.Safety.{run-keeps}
use codecrafters_bittorrent.Download.Worker.{
  bind_result, WorkerError, Setting, PeerWorker, abandon_active_piece, send, on_connect, handler,
}
use codecrafters_bittorrent.Download.Worker.Requests.{IsWellFormed, send-IsWellFormed}
use codecrafters_bittorrent.Download.Worker.Assembly.{on_event-IsWellFormed}

abandon_active_piece-IsWellFormed :
    (c : Setting) (w : PeerWorker)
    → IsWellFormed c w
    → ((abandon_active_piece w).0 ≡ ok tt) × IsWellFormed c (abandon_active_piece w).1
unfolding abandon_active_piece
abandon_active_piece-IsWellFormed c w h = elim (Option-cases w.active_download) [
  | inl e ↦ rw (e, abandon_active_piece) (refl, h)
  | inr (d, e) ↦ rw (e, abandon_active_piece) (refl, record { hand = tt; requests = h.requests })
]

continuing-IsWellFormed :
    (c : Setting) (r : Result WorkerError (Unit {0}) × PeerWorker)
    → IsWellFormed c r.1
    → IsWellFormed c (bind_result r (λ u w. (ok continue, w))).1
continuing-IsWellFormed c (ok u, w) h = h
continuing-IsWellFormed c (err x, w) h = h

on_connect-IsWellFormed :
    (c : Setting) (w : PeerWorker) → IsWellFormed c w → IsWellFormed c (on_connect c w).1
unfolding on_connect
on_connect-IsWellFormed c w h =
    let (done, kept) = abandon_active_piece-IsWellFormed c w h in
    let sent = send-IsWellFormed c PeerCommand.interested (abandon_active_piece w).1 tt kept in
    rw done
      (continuing-IsWellFormed c (send c PeerCommand.interested (abandon_active_piece w).1) sent)

handler-KeptBy : (c : Setting) → KeptBy (IsWellFormed c) (handler c)
unfolding handler
handler-KeptBy c = record {
  connect_keeps = λ conn w h. on_connect-IsWellFormed c w h;
  event_keeps = λ conn e w h. on_event-IsWellFormed c e w h;
}

-- Whatever the network and the peer do: a worker that starts well-formed, beside threads that leave it
-- so, is well-formed when its session ends, on success and on every error; so all that it requested
-- lies inside the pieces of the metainfo.
pub run-IsWellFormed :
    (c : Setting) (config : PeerSessionConfig) (network : List (Attempt PeerWorker))
    (w : PeerWorker)
    → All (Undisturbed (IsWellFormed c)) network
    → IsWellFormed c w
    → IsWellFormed c (run (handler c) config network w).state
run-IsWellFormed c config network w others h =
    run-keeps (IsWellFormed c) (handler c) config (handler-KeptBy c) network w others h
