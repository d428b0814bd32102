-- ===== src/Peer/Metadata/Fetch.antt =====
-- `MetadataFetcher::new` and `run` of src/peer/metadata.rs: the peers of the tracker are tried one after
-- another. The crates url, hex and serde_bencode, the tracker's answer and the network are parameters.
pub mod Verified
pub mod Honest
use codecrafters_bittorrent.Prelude.{
  ℕ, ◌+◌, Bool, true, false, List, [], ◌∷◌, Bytes, Option, none, some, Result, ok, err, ◌>>=◌,
  list_eq, if◌then◌else◌,
}
use codecrafters_bittorrent.Utils.RawBytes.{Text}
use codecrafters_bittorrent.Torrent.Metainfo.{TorrentMetainfo, Codec, Panic, from_info_bytes}
use codecrafters_bittorrent.Torrent.Magnet.{ExactTopic, get_hash}
use codecrafters_bittorrent.Torrent.Magnet.Link.{UrlCrate, MagnetLink, LinkError, parse}
use codecrafters_bittorrent.Tracker.Client.{Peer}
use codecrafters_bittorrent.Tracker.Announce.{TrackerRequest, TrackerResponse}
use codecrafters_bittorrent.Peer.Session.{
  Attempt, Outcome, Ended, done, max_retries_reached, out_of_fuel, run, aggressive,
}
use codecrafters_bittorrent.Peer.Metadata.Fetcher.{
  Setting, MetadataFetcher, MetadataError, send_failed, missing_extension_id, encoding_failed,
  decoding_failed, unexpected_request, rejected, no_piece_data, empty_piece, no_metadata_size,
  length_mismatch, invalid_piece_size, no_buffer, offset_overflow, out_of_range, io_error,
}
use codecrafters_bittorrent.Peer.Metadata.{handler}

-- The fields that do not change, with those that do.
pub record LinkFetcher (Url : Type 0) : Type 0 where
  pub magnet_link : MagnetLink Url
  pub client_id : Text
  pub fetcher : MetadataFetcher

pub record MetadataFetchResult : Type 0 where
  pub peer_id : Option Bytes
  pub peer_metadata_id : Option ℕ
  pub metainfo : Option TorrentMetainfo

-- `panicked` ends the program, and `pending` is a session that waits for more of the network.
pub data FetchError : Type 0 where
  no_trackers no_info_hash unsupported_scheme invalid_hex announce_failed : FetchError
  hash_mismatch no_peer panicked pending : FetchError

unfoldable pub start : Bool → MetadataFetcher
start handshake_only = record {
  ext_handshake_sent = false;
  metadata_bytes = none;
  total_size = none;
  requested_pieces = [];
  received_pieces = [];
  peer_metadata_id = none;
  peer_id = none;
  handshake_only = handshake_only;
  sent = [];
}

unfoldable pub new :
    {Url : Type 0} → UrlCrate Url → Text → Text → Bool → Result LinkError (LinkFetcher Url)
unfolding start
new c link client_id handshake_only = parse c link >>= λ magnet_link.
    ok (record { magnet_link = magnet_link; client_id = client_id; fetcher = start handshake_only })

abbrev pub first {ℓ} : {A : Type ℓ} → List A → Option A
first [] = none
first (x ∷ xs) = some x

-- What a session does to the loop over the peers.
pub data SessionEnd : Type 0 where
  succeeded refused crashed waiting : SessionEnd

abbrev pub error_end : MetadataError → SessionEnd
error_end MetadataError.panicked = crashed
error_end _ = refused

abbrev pub session_end : Outcome MetadataError → SessionEnd
session_end done = succeeded
session_end max_retries_reached = refused
session_end out_of_fuel = waiting
session_end (Outcome.failed e) = error_end e

module _ (m : Codec) where
  unfoldable pub check_hash : Bytes → TorrentMetainfo → Result FetchError (Option TorrentMetainfo)
  check_hash info_hash metainfo =
      if list_eq metainfo.info_hash info_hash then ok (some metainfo) else err hash_mismatch

  -- What is made of the buffer when a session has succeeded.
  unfoldable pub verified_metainfo :
      Text → Bytes → Option Bytes → Result FetchError (Option TorrentMetainfo)
  unfolding check_hash
  verified_metainfo tracker_url info_hash none = ok none
  verified_metainfo tracker_url info_hash (some bytes) =
      elim (from_info_bytes m tracker_url bytes) [
        | err e ↦ err FetchError.panicked
        | ok metainfo ↦ check_hash info_hash metainfo
      ]

  unfoldable pub fetch_result :
      Text → Bytes → MetadataFetcher → Result FetchError MetadataFetchResult
  unfolding verified_metainfo
  fetch_result tracker_url info_hash f =
      verified_metainfo tracker_url info_hash f.metadata_bytes >>= λ metainfo.
      ok
        (record { peer_id = f.peer_id; peer_metadata_id = f.peer_metadata_id; metainfo = metainfo })

  abbrev pub next_peer :
      Text
      → Bytes
      → SessionEnd
      → MetadataFetcher
      → (MetadataFetcher → Result FetchError MetadataFetchResult × MetadataFetcher)
      → Result FetchError MetadataFetchResult × MetadataFetcher
  next_peer tracker_url info_hash succeeded f more = (fetch_result tracker_url info_hash f, f)
  next_peer tracker_url info_hash refused f more = more f
  next_peer tracker_url info_hash crashed f more = (err FetchError.panicked, f)
  next_peer tracker_url info_hash waiting f more = (err pending, f)

  module _ (c : Setting) (network : ℕ → List (Attempt MetadataFetcher)) where
    -- The loop over the peers; the `n`-th session meets the `n`-th part of the network.
    unfoldable pub try_peers :
        Text
        → Bytes
        → List Peer
        → ℕ
        → MetadataFetcher
        → Result FetchError MetadataFetchResult × MetadataFetcher
    unfolding fetch_result
    try_peers tracker_url info_hash [] n f = (err no_peer, f)
    try_peers tracker_url info_hash (peer ∷ peers) n f =
        let r = run (handler c) aggressive (network n) f in
        next_peer tracker_url info_hash (session_end r.outcome) r.state
          (try_peers tracker_url info_hash peers (n + 1))

-- The requests to the tracker, all but the number of bytes that are left.
unfoldable pub tracker_request : Bytes → Text → ℕ → TrackerRequest
tracker_request info_hash client_id left = record {
  info_hash = info_hash;
  peer_id = client_id;
  port = 6881;
  uploaded = 0;
  downloaded = 0;
  left = left;
  compact = 1;
}

unfoldable pub info_hash_of : (Text → Option Bytes) → List ExactTopic → Result FetchError Bytes
info_hash_of hex_decode topics = elim (first topics) [
  | none ↦ err no_info_hash
  | some topic ↦ elim (get_hash topic) [
    | none ↦ err unsupported_scheme
    | some hash ↦ elim (hex_decode hash) [ none ↦ err invalid_hex | some info_hash ↦ ok info_hash ]
  ]
]

-- What the run does not implement.
pub record World (Url : Type 0) : Type 0 where
  pub urls : UrlCrate Url
  pub hex_decode : Text → Option Bytes
  pub metainfo_codec : Codec
  pub announce : Text → TrackerRequest → Option (Result Panic TrackerResponse)
  pub setting : Setting
  pub network : ℕ → List (Attempt MetadataFetcher)

module _ {Url : Type 0} (e : World Url) where
  abbrev pub announced : Option (Result Panic TrackerResponse) → Result FetchError (List Peer)
  announced none = err announce_failed
  announced (some (err x)) = err FetchError.panicked
  announced (some (ok response)) = ok response.peers

  unfoldable pub run_with :
      Text
      → Bytes
      → LinkFetcher Url
      → Result FetchError (List Peer)
      → Result FetchError MetadataFetchResult × MetadataFetcher
  unfolding try_peers
  run_with tracker_url info_hash f (err x) = (err x, f.fetcher)
  run_with tracker_url info_hash f (ok peers) =
      try_peers e.metainfo_codec e.setting e.network tracker_url info_hash peers 0 f.fetcher

  unfoldable pub run_topic :
      Text
      → LinkFetcher Url
      → Result FetchError Bytes
      → Result FetchError MetadataFetchResult × MetadataFetcher
  unfolding run_with tracker_request
  run_topic tracker_url f (err x) = (err x, f.fetcher)
  run_topic tracker_url f (ok info_hash) =
      run_with tracker_url info_hash f
        (announced (e.announce tracker_url (tracker_request info_hash f.client_id 999)))

  unfoldable pub run_fetcher :
      LinkFetcher Url → Result FetchError MetadataFetchResult × MetadataFetcher
  unfolding run_topic info_hash_of
  run_fetcher f = elim (first f.magnet_link.trackers) [
    | none ↦ (err no_trackers, f.fetcher)
    | some url ↦
        run_topic (e.urls.to_string url) f (info_hash_of e.hex_decode f.magnet_link.exact_topics)
  ]
