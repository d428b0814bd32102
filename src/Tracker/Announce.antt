-- ===== src/Tracker/Announce.antt =====
-- `announce` of src/tracker/client.rs. The request of reqwest and the `insert` of a serde_json map are
-- parameters.
pub mod Answer
use codecrafters_bittorrent.Prelude.{
  ℕ, ◌%◌, true, false, List, [], ◌∷◌, ◌++◌, Bytes, Option, none, some, Result, ok, err, list_eq,
  if◌then◌else◌,
}
use codecrafters_bittorrent.Utils.RawBytes.{Text}
use codecrafters_bittorrent.Utils.Words.{u32_mod}
use codecrafters_bittorrent.Utils.Url.{url_encode}
use codecrafters_bittorrent.Peer.Message.{codes}
use codecrafters_bittorrent.Bencode.Decimal.{decimal}
use codecrafters_bittorrent.Bencode.Value.{
  Number, pos_int, Value, number, string, object, Fields, end, field,
}
use codecrafters_bittorrent.Bencode.Parser.{ParseError, parse_bytes}
use codecrafters_bittorrent.Torrent.Metainfo.{Panic, panicked}
use codecrafters_bittorrent.Tracker.Client.{Peer, parse_peers}

pub record TrackerRequest : Type 0 where
  pub info_hash : Bytes
  pub peer_id : Text
  pub port : ℕ
  pub uploaded : ℕ
  pub downloaded : ℕ
  pub left : ℕ
  pub compact : ℕ

pub record TrackerResponse : Type 0 where
  pub interval : ℕ
  pub peers : List Peer

unfoldable pub announce_request : Text → TrackerRequest → Text
announce_request announce_url r =
    announce_url
    ++ (codes "?info_hash="
        ++ (url_encode r.info_hash
            ++ (codes "&peer_id="
                ++ (r.peer_id
                    ++ (codes "&port="
                        ++ (decimal r.port
                            ++ (codes "&uploaded="
                                ++ (decimal r.uploaded
                                    ++ (codes "&downloaded="
                                        ++ (decimal r.downloaded
                                            ++ (codes "&left="
                                                ++ (decimal r.left
                                                    ++ (codes "&compact="
                                                        ++ decimal r.compact)))))))))))))

-- `get` of a map, and of a value that may be one.
unfoldable pub get_field : Text → Fields → Option Value
get_field key end = none
get_field key (field k v fields) =
    let rest = get_field key fields in if list_eq k key then some v else rest

unfoldable pub get : Text → Value → Option Value
unfolding get_field
get key (object fields) = get_field key fields
get key _ = none

abbrev pub as_u64 : Option Value → Option ℕ
as_u64 (some (number (pos_int n))) = some n
as_u64 _ = none

abbrev pub as_str : Option Value → Option Text
as_str (some (string s)) = some s
as_str _ = none

abbrev pub unwrap_or : ℕ → Option ℕ → ℕ
unwrap_or d none = d
unwrap_or d (some n) = n

abbrev pub peers_or_none : Option Text → Result Panic (List Peer)
peers_or_none none = ok []
peers_or_none (some s) = parse_peers s

abbrev pub with_interval : ℕ → Result Panic (List Peer) → Result Panic TrackerResponse
with_interval n (err e) = err e
with_interval n (ok peers) = ok (record { interval = n; peers = peers })

unfoldable pub response_of : Value → Result Panic TrackerResponse
unfolding get
response_of v =
    with_interval (unwrap_or 0 (as_u64 (get (codes "interval") v)) % u32_mod)
      (peers_or_none (as_str (get (codes "peers") v)))

abbrev pub parsed : Result ParseError Value → Result Panic TrackerResponse
parsed (ok v) = response_of v
parsed (err e) = err panicked

module _ (insert : Text → Value → Fields → Fields) (fetch : Text → Option Bytes) where
  -- `none` where the request fails.
  unfoldable pub announce : Text → TrackerRequest → Option (Result Panic TrackerResponse)
  announce announce_url request = elim (fetch (announce_request announce_url request)) [
    | none ↦ none
    | some response ↦ some (parsed (parse_bytes insert response))
  ]
