-- ===== src/Tests/Downloads.antt =====
-- Runs of src/download/manager.rs, and of the download of one piece in src/main.rs.
use codecrafters_bittorrent.Prelude.{
  ℕ, ◌<◌, ◌≡◌, ◌↔◌, refl, true, [], ◌∷◌, Bytes, arith, length, replicate, none, some, ok,
}
use codecrafters_bittorrent.Torrent.Metainfo.{get_piece_count, get_piece_hash_bytes}
use codecrafters_bittorrent.Peer.Connection.{PeerEvent}
use codecrafters_bittorrent.Peer.Connection.Handshake.{established}
use codecrafters_bittorrent.Peer.Session.{
  Attempt, aggressive, backoff_delay, event_loop, exhausted, run, run_from,
}
use codecrafters_bittorrent.Download.Worker.{
  PeerWorker, abandon_active_piece, advance, begin_piece, complete_piece, copy_block, finish_piece,
  get_piece_len, handle_piece_event, handler, is_active, next_or_stop, of_length, on_connect,
  on_event, on_unchoke, persist_piece, pop, popped, popped_or_wait, receive_block, reconnecting,
  reject_piece, request_for, resume, send, send_next_request, should_stop, start_next_piece,
  stop_if_done, store_block, with_control, write_at,
}
use codecrafters_bittorrent.Download.Worker.Length.{size_of_piece}
use codecrafters_bittorrent.Main.{tracker_request}
use codecrafters_bittorrent.Main.Piece.{PieceEnd, download_piece_with_metainfo, try_peers}
use codecrafters_bittorrent.Main.Piece.Saved.{IsQuiet, download_piece-saved}
use codecrafters_bittorrent.Download.Queue
use codecrafters_bittorrent.Download.Queue.{wait_until_finished}
use codecrafters_bittorrent.Download.Queue.Fleet.{Fleet, here, count}
use codecrafters_bittorrent.Download.Manager.{
  DownloadManager, Environment, Started, download, new_worker, open_output, run_worker,
  worker_setting,
}
use codecrafters_bittorrent.Download.Manager.Returns.{each_once, download_returns}

abbrev environment : Environment
environment = record {
  announce = λ url request. some (ok (record { interval = 60; peers = [] }));
  opens = λ path. true;
  sets_len = λ path n. true;
  sha1 = λ bytes. bytes;
  sends = λ peer sent cmd. true;
  write_fails = λ index bytes. none;
  await = λ peer queue. queue;
}

-- Two pieces, of four and of one byte.
abbrev manager : DownloadManager
manager = record {
  metainfo = record {
    announce = [];
    piece_length = 4;
    pieces = replicate 40 0;
    length = 5;
    info_hash = [];
  };
  client_id = [];
  output_path = [];
}

abbrev started : Started
started = record {
  queue = Queue.new (0 ∷ 1 ∷ []);
  output_file = 0 ∷ 0 ∷ 0 ∷ 0 ∷ 0 ∷ [];
  workers = [];
}

manager-started : download environment manager ≡ ok started
unfolding download get_piece_count
manager-started = refl

two_pieces : get_piece_count manager.metainfo ≡ 2
unfolding get_piece_count
two_pieces = refl

abbrev begun : Fleet
begun = record { shared = started.queue; held = []; written = []; lost = [] }

download_returns_example :
    let n = get_piece_count manager.metainfo in
    (started.output_file ≡ replicate 5 0)
    × ((wait_until_finished begun.shared ≡ true) ↔ ((0 < n) × (length begun.written ≡ n)))
    × (wait_until_finished begun.shared ≡ true → (i : ℕ) → count i begun.written ≡ each_once n i)
download_returns_example =
    download_returns environment manager started {t = begun} (omega (arith, two_pieces))
      manager-started here

-- A peer that unchokes, and sends the first piece.
abbrev generous : Attempt PeerWorker
generous = record {
  connection = ok (
      established (record { pstr = []; reserved = []; info_hash = []; peer_id = []; stream = [] }));
  connecting = λ s. s;
  arrivals = (λ w. w, PeerEvent.unchoke) ∷ (λ w. w, PeerEvent.piece 0 0 (1 ∷ 2 ∷ 3 ∷ 4 ∷ [])) ∷ [];
  closing = λ w. w;
  asleep = λ w. w;
}

generous-IsQuiet : IsQuiet generous
generous-IsQuiet = record {
  connecting_same = λ w. refl;
  before_same = (λ w. refl, (λ w. refl, tt));
  closing_same = λ w. refl;
  asleep_same = λ w. refl;
}

abbrev one_peer : Environment
one_peer = record environment {
  announce = λ url request. some (
      ok (record {
        interval = 60;
        peers = record { ip = record { a = 127; b = 0; c = 0; d = 1 }; port = 6881 } ∷ [];
      }));
  sha1 = λ bytes. replicate 20 0;
}

abbrev first_piece : Bytes
first_piece = 1 ∷ 2 ∷ 3 ∷ 4 ∷ []

piece_downloaded :
    download_piece_with_metainfo one_peer (λ n. generous ∷ []) manager.metainfo [] 0
    ≡ PieceEnd.saved first_piece
unfolding download_piece_with_metainfo Queue.is_shutdown Queue.mark_completed Queue.new Queue.pop
    Queue.pop_from Queue.push new_worker open_output run_worker worker_setting abandon_active_piece
    advance begin_piece complete_piece copy_block finish_piece get_piece_len handle_piece_event
    handler is_active next_or_stop of_length on_connect on_event on_unchoke persist_piece pop popped
    popped_or_wait receive_block reconnecting reject_piece request_for resume send send_next_request
    should_stop start_next_piece stop_if_done store_block with_control write_at try_peers
    tracker_request aggressive backoff_delay event_loop exhausted run run_from size_of_piece
    get_piece_hash_bytes
piece_downloaded = refl

download_piece-saved_example :
    (get_piece_hash_bytes manager.metainfo 0 ≡ ok (replicate 20 0))
    × (length first_piece ≡ size_of_piece manager.metainfo 0)
download_piece-saved_example =
    download_piece-saved one_peer (λ n. generous ∷ []) manager.metainfo [] 0 first_piece
      (omega arith) (omega arith) (omega arith) (omega arith) (λ peer q. refl)
      (λ n. (generous-IsQuiet, tt)) piece_downloaded
