-- ===== src/Main/Piece.antt =====
-- `download_piece_with_metainfo` and the downloads of src/main.rs: each peer of the tracker is tried in
-- turn, with a fresh queue of one piece and a fresh file.
pub mod Saved
use codecrafters_bittorrent.Prelude.{
  ℕ, ◌+◌, List, [], ◌∷◌, Bytes, Option, none, some, Result, ok, err, ◌>>=◌,
}
use codecrafters_bittorrent.Utils.RawBytes.{Text}
use codecrafters_bittorrent.Torrent.Metainfo.{TorrentMetainfo, Panic, panicked}
use codecrafters_bittorrent.Tracker.Client.{Peer}
use codecrafters_bittorrent.Peer.Session.{
  Attempt, Outcome, done, max_retries_reached, out_of_fuel, aggressive,
}
use codecrafters_bittorrent.Download.Queue
use codecrafters_bittorrent.Download.Worker.{PeerWorker, WorkerError}
use codecrafters_bittorrent.Download.Worker.Length.{size_of_piece}
use codecrafters_bittorrent.Download.Manager.{
  Environment, DownloadError, DownloadManager, Started, worker_setting, new_worker, run_worker,
  open_output,
}
use codecrafters_bittorrent.Download.Manager
use codecrafters_bittorrent.Main.{Outside, parse_file, tracker_request, expect_response, client_id}

-- How the loop over the peers ends: at a session that succeeds, with its file; when no peer is left, with
-- what the last one left; by a panic; or in a session that waits for more of the network or a piece.
pub data PieceEnd : Type 0 where
  saved : Bytes → PieceEnd
  gave_up : Option Bytes → PieceEnd
  crashed waiting : PieceEnd

abbrev pub after_error : WorkerError → PieceEnd → PieceEnd
after_error WorkerError.panicked rest = crashed
after_error WorkerError.blocked rest = waiting
after_error _ rest = rest

-- The `match` on the result of the worker; `rest` is what follows `continue`.
abbrev pub after_worker : Outcome WorkerError → Bytes → PieceEnd → PieceEnd
after_worker done file rest = saved file
after_worker max_retries_reached file rest = rest
after_worker out_of_fuel file rest = waiting
after_worker (Outcome.failed x) file rest = after_error x rest

module _ (e : Environment) (network : ℕ → List (Attempt PeerWorker)) (m : TorrentMetainfo)
    (output_file_path : Text) (piece_index : ℕ) where
  unfoldable pub try_peers : List Peer → ℕ → Option Bytes → PieceEnd
  unfolding open_output worker_setting new_worker run_worker
  try_peers [] n before = gave_up before
  try_peers (peer ∷ peers) n before =
      elim (open_output e output_file_path (size_of_piece m piece_index)) [
        | err x ↦ crashed
        | ok output_file ↦
            let queue = Queue.new (piece_index ∷ []) in
            let c = worker_setting e m piece_index peer in
            let r = run_worker c aggressive (network n) (new_worker queue output_file) in
            after_worker r.outcome r.state.output_file
              (try_peers peers (n + 1) (some r.state.output_file))
      ]

  unfoldable pub download_piece_with_metainfo : PieceEnd
  unfolding try_peers
  download_piece_with_metainfo =
      elim (expect_response (e.announce m.announce (tracker_request m))) [
        | err x ↦ crashed
        | ok response ↦ try_peers response.peers 0 none
      ]

abbrev pub expect_started : Result DownloadError Started → Result Panic Started
expect_started (ok s) = ok s
expect_started (err x) = err panicked

-- A manager that is made and run, up to its wait.
unfoldable pub download_with_manager : Environment → TorrentMetainfo → Text → Result Panic Started
download_with_manager e m output_file_path =
    expect_started (Manager.download e (Manager.new m client_id output_file_path))

module _ (o : Outside) (e : Environment) where
  unfoldable pub download_piece :
      (ℕ → List (Attempt PeerWorker)) → Text → Text → ℕ → Result Panic PieceEnd
  unfolding parse_file download_piece_with_metainfo
  download_piece network output_file_path metainfo_file_path piece_index = do
    metainfo ← parse_file o metainfo_file_path
    ok (download_piece_with_metainfo e network metainfo output_file_path piece_index)

  unfoldable pub download_file : Text → Text → Result Panic Started
  unfolding parse_file download_with_manager
  download_file output_file_path metainfo_file_path = do
    meta ← parse_file o metainfo_file_path
    download_with_manager e meta output_file_path
