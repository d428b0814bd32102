-- ===== src/Download/Manager.antt =====
-- src/download/manager.rs: a download of a whole torrent. The answer of the tracker, the file system and
-- what the workers do not implement are arguments; the workers run beside the manager, as in
-- Download.Queue.Fleet.
pub mod Returns
use codecrafters_bittorrent.Prelude.{
  ℕ, ◌+◌, ◌%◌, ◌^◌, Bool, true, false, List, [], ◌∷◌, map, Bytes, replicate, Option, none, some,
  Result, ok, err, if◌then◌else◌,
}
use codecrafters_bittorrent.Utils.RawBytes.{Text}
use codecrafters_bittorrent.Utils.Words.{u32_mod}
use codecrafters_bittorrent.Utils.Ranges.{range_from}
use codecrafters_bittorrent.Torrent.Metainfo.{TorrentMetainfo, Panic, get_piece_count}
use codecrafters_bittorrent.Tracker.Client.{Peer}
use codecrafters_bittorrent.Tracker.Announce.{TrackerRequest, TrackerResponse}
use codecrafters_bittorrent.Peer.Connection.{PeerCommand}
use codecrafters_bittorrent.Peer.Session.{PeerSessionConfig, Attempt, Ended, run, default}
use codecrafters_bittorrent.Download.Queue
use codecrafters_bittorrent.Download.Queue.{PieceQueue}
use codecrafters_bittorrent.Download.Worker.{Setting, PeerWorker, WorkerError, handler}

pub record DownloadManager : Type 0 where
  pub metainfo : TorrentMetainfo
  pub client_id : Text
  pub output_path : Text

unfoldable pub new : TorrentMetainfo → Text → Text → DownloadManager
new metainfo client_id output_path = record {
  metainfo = metainfo;
  client_id = client_id;
  output_path = output_path;
}

-- What the program does not implement.
pub record Environment : Type 0 where
  pub announce : Text → TrackerRequest → Option (Result Panic TrackerResponse)
  -- whether a file is opened, empty, and whether it then gets a length
  pub opens : Text → Bool
  pub sets_len : Text → ℕ → Bool
  pub sha1 : Bytes → Bytes
  pub sends : Peer → List PeerCommand → PeerCommand → Bool
  pub write_fails : ℕ → Bytes → Option ℕ
  pub await : Peer → PieceQueue → PieceQueue

pub data DownloadError : Type 0 where
  announce_failed announce_panicked open_failed set_len_failed : DownloadError

unfoldable pub tracker_request : DownloadManager → TrackerRequest
tracker_request d = record {
  info_hash = d.metainfo.info_hash;
  peer_id = d.client_id;
  port = 6881;
  uploaded = 0;
  downloaded = 0;
  left = d.metainfo.length;
  compact = 1;
}

abbrev pub peers_of : Option (Result Panic TrackerResponse) → Result DownloadError (List Peer)
peers_of none = err announce_failed
peers_of (some (err e)) = err announce_panicked
peers_of (some (ok response)) = ok response.peers

unfoldable pub piece_ids : TorrentMetainfo → List ℕ
unfolding range_from
piece_ids m = range_from 0 (get_piece_count m % u32_mod)

-- `PeerWorker::new`, by what stays and what changes.
unfoldable pub worker_setting : Environment → TorrentMetainfo → ℕ → Peer → Setting
worker_setting e m base_piece_index peer = record {
  metainfo = m;
  base_piece_index = base_piece_index;
  sha1 = e.sha1;
  sends = e.sends peer;
  write_fails = e.write_fails;
  await = e.await peer;
}

unfoldable pub new_worker : PieceQueue → Bytes → PeerWorker
new_worker queue file = record {
  queue = queue;
  output_file = file;
  active_download = none;
  sent = [];
}

-- `PeerWorker::run`.
unfoldable pub run_worker :
    Setting
    → PeerSessionConfig
    → List (Attempt PeerWorker)
    → PeerWorker
    → Ended WorkerError PeerWorker
unfolding handler run
run_worker c config network w = run (handler c) config network w

-- The manager when it has spawned the workers and waits.
pub record Started : Type 0 where
  pub queue : PieceQueue
  pub output_file : Bytes
  -- one for each peer, in order
  pub workers : List Setting

module _ (e : Environment) where
  unfoldable pub open_output : Text → ℕ → Result DownloadError Bytes
  open_output path len =
      if e.opens path
      then (if e.sets_len path len then ok (replicate len 0) else err set_len_failed)
      else err open_failed

  unfoldable pub spawn_all : DownloadManager → List Peer → Bytes → Started
  unfolding piece_ids worker_setting
  spawn_all d peers file = record {
    queue = Queue.new (piece_ids d.metainfo);
    output_file = file;
    workers = map (worker_setting e d.metainfo 0) peers;
  }

  -- `download` up to `wait_until_finished`.
  unfoldable pub download : DownloadManager → Result DownloadError Started
  unfolding tracker_request open_output spawn_all
  download d = elim (peers_of (e.announce d.metainfo.announce (tracker_request d))) [
    | err x ↦ err x
    | ok peers ↦ elim (open_output d.output_path d.metainfo.length) [
      | err x ↦ err x
      | ok file ↦ ok (spawn_all d peers file)
    ]
  ]
