-- ===== src/Tests/Fetching.antt =====
-- Runs of src/peer/metadata.rs, with metadata of three bytes.
use codecrafters_bittorrent.Prelude.{
  ℕ, ◌<◌, ◌≡◌, ◌↔◌, refl, true, false, [], ◌∷◌, arith, Bytes, Option, none, some, ok,
}
use codecrafters_bittorrent.Utils.RawBytes.{Text}
use codecrafters_bittorrent.Torrent.Metainfo.{
  TorrentMetainfo, Codec, InfoDictionary, from_info_bytes, total_length,
}
use codecrafters_bittorrent.Torrent.Magnet.{ExactTopic, btih, get_hash}
use codecrafters_bittorrent.Tracker.Client.{Peer}
use codecrafters_bittorrent.Peer.Message.{codes}
use codecrafters_bittorrent.Peer.Connection.Handshake.{established}
use codecrafters_bittorrent.Peer.Extension
use codecrafters_bittorrent.Peer.Session.{Attempt, run, aggressive, event_loop}
use codecrafters_bittorrent.Peer.Metadata.Fetcher.{Setting, MetadataFetcher, contains, insert}
use codecrafters_bittorrent.Peer.Metadata.{handler, handle_metadata_message}
use codecrafters_bittorrent.Peer.Metadata.Assembly.{mark, piece_count, block, Refines, Honest}
use codecrafters_bittorrent.Peer.Metadata.Assembly.Step.{handle_metadata_message-Refines}
use codecrafters_bittorrent.Peer.Metadata.Assembly.Delivery.{Responsive}
use codecrafters_bittorrent.Peer.Metadata.Fetch.{
  LinkFetcher, MetadataFetchResult, World, start, try_peers, run_fetcher, first,
}
use codecrafters_bittorrent.Peer.Metadata.Fetch.Verified.{Sound, run_fetcher-Sound}
use codecrafters_bittorrent.Peer.Metadata.Fetch.Honest.{
  Fresh, HonestPeer, honest_arrivals, try_peers_fetches,
}

abbrev metadata : Bytes
metadata = 1 ∷ 2 ∷ 3 ∷ []

abbrev payload : Bytes
payload = 9 ∷ metadata

abbrev setting : Setting
setting = record {
  extension_codec = record {
    serialize = λ h. some (7 ∷ []);
    deserialize = λ bytes. some (record {
      extensions = (codes "ut_metadata", 3) ∷ [];
      metadata_size = some 3;
      client_name = none;
    });
  };
  encode_request = λ r. some (r.piece ∷ []);
  decode_response = λ bytes. some (record { msg_type = 1; piece = 0; total_size = 3 }, 1);
  sends = λ sent cmd. true;
}

-- Behind the extension handshake.
abbrev waiting_for_piece : MetadataFetcher
waiting_for_piece = record {
  ext_handshake_sent = true;
  metadata_bytes = some (0 ∷ 0 ∷ 0 ∷ []);
  total_size = some 3;
  requested_pieces = 0 ∷ [];
  received_pieces = [];
  peer_metadata_id = some 3;
  peer_id = none;
  handshake_only = false;
  sent = [];
}

payload-Honest : Honest setting metadata 0 payload
unfolding block
payload-Honest = record {
  header_len = 1;
  decoded = refl;
  header_fits = omega arith;
  rest = refl;
  inside = omega arith;
}

waiting-Refines : Refines metadata (λ q. false) waiting_for_piece
unfolding contains
waiting-Refines = record {
  size_known = refl;
  buffer = 0 ∷ 0 ∷ 0 ∷ [];
  in_buffer = refl;
  length_kept = refl;
  placed = λ i below never. cc;
  received = λ q. refl;
  no_repeat = tt;
  below = tt;
}

handle_metadata_message-Refines_example :
    let r = handle_metadata_message setting payload waiting_for_piece in
    Refines metadata (mark 0 (λ q. false)) r.1
    × ((r.0 ≡ ok true) ↔ ((q : ℕ) → q < piece_count metadata → mark 0 (λ q. false) q ≡ true))
    × (r.0 ≡ ok true → r.1.metadata_bytes ≡ some metadata)
handle_metadata_message-Refines_example =
    handle_metadata_message-Refines setting metadata 0 payload (λ q. false) waiting_for_piece
      (omega arith) payload-Honest waiting-Refines

abbrev info_of : Bytes → Option InfoDictionary
info_of bytes =
    some (record { piece_length = 4; pieces = []; length = some 9; files = none; name = none })

abbrev codec : Codec
codec = record {
  decode_torrent = λ bytes. none;
  encode_torrent = λ t. none;
  decode_info = info_of;
  encode_info = λ info. none;
  sha1 = λ bytes. bytes;
  hex = λ bytes. bytes;
}

abbrev attempt : Attempt MetadataFetcher
attempt = record {
  connection = ok (
      established (record { pstr = []; reserved = []; info_hash = []; peer_id = []; stream = [] }));
  connecting = λ s. s;
  arrivals = honest_arrivals none [] (5 ∷ []) ((0, payload) ∷ []);
  closing = λ f. f;
  asleep = λ f. f;
}

abbrev peer : Peer
peer = record { ip = record { a = 127; b = 0; c = 0; d = 1 }; port = 6881 }

abbrev metainfo : TorrentMetainfo
metainfo = record { announce = []; piece_length = 4; pieces = []; length = 9; info_hash = metadata }

responsive : Responsive setting
responsive = record { sends = λ sent cmd. refl; encodes = λ r. (r.piece ∷ [], refl) }

honest_peer : HonestPeer setting metadata 3 attempt
unfolding Extension.encode Extension.decode Extension.get_extension_id
honest_peer = record {
  conn =
      established (record { pstr = []; reserved = []; info_hash = []; peer_id = []; stream = [] });
  alone = λ f. refl;
  connects = refl;
  peer_id = none;
  reserved = [];
  hello = 7 ∷ [];
  encodes = refl;
  offer = 5 ∷ [];
  offers = record {
    offered = record {
      extensions = (codes "ut_metadata", 3) ∷ [];
      metadata_size = some 3;
      client_name = none;
    };
    decoded = refl;
    under_id = refl;
    of_size = refl;
  };
  messages = (0, payload) ∷ [];
  arrives = refl;
  honest = (payload-Honest, tt);
  all_pieces = λ q below. let none_else : q ≡ 0 = omega arith in rw none_else refl;
}

start-Fresh : Fresh (start false)
unfolding start
start-Fresh = record { not_sent = refl; nothing_received = refl; wants_metadata = refl }

from_info : from_info_bytes codec [] metadata ≡ ok metainfo
unfolding from_info_bytes total_length
from_info = refl

try_peers_fetches_example :
    (r : MetadataFetchResult) × ((try_peers codec setting
        (λ n. attempt ∷ [])
        []
        metadata
        (peer ∷ [])
        0
        (start false)).0
      ≡ ok r)
    × (r.metainfo ≡ some metainfo)
    × (r.peer_metadata_id ≡ some 3)
try_peers_fetches_example =
    try_peers_fetches codec setting (λ n. attempt ∷ []) 3 metadata attempt [] [] peer [] metainfo
      (start false) responsive (omega arith) (omega arith) refl honest_peer from_info start-Fresh

abbrev world : World Text
world = record {
  urls = record {
    parse_url = λ s. some s;
    scheme = λ url. url;
    query_pairs = λ url. [];
    to_string = λ url. url;
  };
  hex_decode = λ s. some s;
  metainfo_codec = codec;
  announce = λ url request. some (ok (record { interval = 60; peers = peer ∷ [] }));
  setting = setting;
  network = λ n. attempt ∷ [];
}

abbrev link : LinkFetcher Text
link = record {
  magnet_link = record {
    exact_topics = btih metadata ∷ [];
    display_name = none;
    trackers = [] ∷ [];
    web_seeds = [];
    acceptable_sources = [];
    exact_sources = [];
    peers = [];
    length = none;
    select_only = none;
    other_params = [];
  };
  client_id = [];
  fetcher = start false;
}

abbrev fetched_result : MetadataFetchResult
fetched_result = record { peer_id = some []; peer_metadata_id = some 3; metainfo = some metainfo }

link_fetched : (run_fetcher world link).0 ≡ ok fetched_result
unfolding run_fetcher start get_hash run handler aggressive event_loop Extension.encode
    Extension.decode Extension.get_extension_id insert from_info_bytes total_length
link_fetched = refl

run_fetcher-Sound_example :
    (url : Text) × (topic : ExactTopic) × (hash : Text) × (first (([] ∷ [])) ≡ some url)
    × (first (btih metadata ∷ []) ≡ some topic)
    × (get_hash topic ≡ some hash)
    × (some hash ≡ some metadata)
    × Sound codec url metadata (run_fetcher world link) metainfo
run_fetcher-Sound_example = run_fetcher-Sound world link fetched_result metainfo refl link_fetched
