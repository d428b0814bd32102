-- ===== src/Tests/Pieces.antt =====
-- Runs of src/download/worker.rs and src/torrent/metainfo.rs.
use codecrafters_bittorrent.Prelude.{
  ◌≤◌, ◌<◌, ◌≡◌, ◌⊎◌, refl, true, [], ◌∷◌, arith, Bytes, length, get_elem?, replicate, none, some,
  ok, err,
}
use codecrafters_bittorrent.Peer.Connection.{PeerEvent}
use codecrafters_bittorrent.Torrent.Metainfo.{
  TorrentMetainfo, Codec, Panic, get_piece_count, get_piece_hashes, get_piece_hash_bytes,
}
use codecrafters_bittorrent.Torrent.Metainfo.Hashes.{get_piece_hash_bytes-get_piece_hashes}
use codecrafters_bittorrent.Download.Queue.{new}
use codecrafters_bittorrent.Download.Worker.{
  Setting, PeerWorker, get_piece_len, on_connect, on_event,
}
use codecrafters_bittorrent.Download.Worker.Length.{size_of_piece, get_piece_len-eq}
use codecrafters_bittorrent.Download.Worker.Callbacks.{IsSettled}
use codecrafters_bittorrent.Download.Worker.Settlement.{on_event-IsSettled}
use codecrafters_bittorrent.Download.Worker.Returns.{
  GivesBack, IsInterruption, interruption-GivesBack,
}
use codecrafters_bittorrent.Download.Worker.Requests.{IsWellFormed}
use codecrafters_bittorrent.Download.Worker.Assembly.{on_event-IsWellFormed}
use codecrafters_bittorrent.Download.Worker.{handler}
use codecrafters_bittorrent.Download.Worker.Composed.{run-IsWellFormed}
use codecrafters_bittorrent.Peer.Connection.Handshake.{established}
use codecrafters_bittorrent.Peer.Session.{reconnect, PeerSessionConfig, Attempt, run}
use codecrafters_bittorrent.Peer.Session.Rounds.{Undisturbed}
use codecrafters_bittorrent.Download.Queue
use codecrafters_bittorrent.Download.Worker.Integrity.{IsSound, on_event-IsSound}

-- Four pieces, the last one of four bytes.
abbrev metainfo : TorrentMetainfo
metainfo = record {
  announce = [];
  piece_length = 32;
  pieces = replicate 80 1;
  length = 100;
  info_hash = replicate 20 7;
}

get_piece_len-eq_example : get_piece_len metainfo 3 ≡ ok (size_of_piece metainfo 3)
get_piece_len-eq_example =
    get_piece_len-eq metainfo 3 (omega arith) (omega arith) (omega arith) (omega arith)

-- The last piece is short.
get_piece_len_last : get_piece_len metainfo 3 ≡ ok 4
unfolding get_piece_len
get_piece_len_last = refl

abbrev setting : Setting
setting = record {
  metainfo = metainfo;
  base_piece_index = 0;
  sha1 = λ bytes. replicate 20 1;
  sends = λ sent cmd. true;
  write_fails = λ index bytes. none;
  await = λ q. q;
}

-- The last piece lacks its last two bytes.
abbrev worker : PeerWorker
worker = record {
  queue = new (0 ∷ []);
  output_file = [];
  active_download =
      some (record { index = 3; offset = 2; length = 4; buffer = 8 ∷ 9 ∷ 0 ∷ 0 ∷ [] });
  sent = [];
}

abbrev last_block : PeerEvent
last_block = PeerEvent.piece 3 2 (10 ∷ 11 ∷ [])

on_event-IsSettled_example :
    IsSettled setting (new (0 ∷ [])) (3 ∷ []) [] (on_event setting last_block worker)
on_event-IsSettled_example = on_event-IsSettled setting (λ q. refl) last_block worker

interruption-GivesBack_example :
    ((on_event setting PeerEvent.choke worker).0 ≡ ok reconnect)
    × GivesBack worker (on_event setting PeerEvent.choke worker)
    × GivesBack worker (on_connect setting worker)
interruption-GivesBack_example =
    interruption-GivesBack setting PeerEvent.choke worker IsInterruption.choked

on_event-IsSound_example : IsSound setting [] (on_event setting last_block worker)
on_event-IsSound_example = on_event-IsSound setting last_block worker

abbrev codec : Codec
codec = record {
  decode_torrent = λ bytes. none;
  encode_torrent = λ t. none;
  decode_info = λ bytes. none;
  encode_info = λ info. none;
  sha1 = λ bytes. replicate 20 1;
  hex = λ bytes. bytes;
}

get_piece_hash_bytes-get_piece_hashes_example :
    ((3 < get_piece_count metainfo)
      × ((h : Bytes) × (get_piece_hash_bytes metainfo 3 ≡ ok h)
          × (length h ≡ 20)
          × (get_elem? (get_piece_hashes codec metainfo) 3 ≡ some h)))
    ⊎ ((get_piece_count metainfo ≤ 3) × (get_piece_hash_bytes metainfo 3 ≡ err Panic.panicked))
get_piece_hash_bytes-get_piece_hashes_example =
    get_piece_hash_bytes-get_piece_hashes codec metainfo 3 (omega arith)

worker-IsWellFormed : IsWellFormed setting worker
worker-IsWellFormed = record {
  hand = record {
    whole = get_piece_len_last;
    filled = refl;
    inside = omega arith;
    small = omega arith;
  };
  requests = tt;
}

on_event-IsWellFormed_example : IsWellFormed setting (on_event setting last_block worker).1
on_event-IsWellFormed_example = on_event-IsWellFormed setting last_block worker worker-IsWellFormed

-- A peer that chokes, after another thread has pushed a piece.
abbrev attempt : Attempt PeerWorker
attempt = record {
  connection = ok (
      established (record { pstr = []; reserved = []; info_hash = []; peer_id = []; stream = [] }));
  connecting = λ s. s;
  arrivals = (λ w. record w { queue = Queue.push w.queue 5 }, PeerEvent.choke) ∷ [];
  closing = λ w. w;
  asleep = λ w. w;
}

attempt-Undisturbed : Undisturbed (IsWellFormed setting) attempt
attempt-Undisturbed = record {
  connecting_keeps = λ s q. q;
  before_keeps = (λ w h. record { hand = h.hand; requests = h.requests }, tt);
  closing_keeps = λ w h. h;
  asleep_keeps = λ w h. h;
}

abbrev config : PeerSessionConfig
config = record { backoff_base = 1; backoff_cap = 3; max_retries = 2 }

run-IsWellFormed_example :
    IsWellFormed setting (run (handler setting) config (attempt ∷ []) worker).state
run-IsWellFormed_example =
    run-IsWellFormed setting config (attempt ∷ []) worker (attempt-Undisturbed, tt)
      worker-IsWellFormed
