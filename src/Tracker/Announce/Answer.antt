-- ===== src/Tracker/Announce/Answer.antt =====
-- An announce of src/tracker/client.rs against the tracker's answer.
use codecrafters_bittorrent.Prelude.{
  ℕ, ◌^◌, ◌%◌, ◌<◌, ◌≡◌, refl, sym, ap, ◌∙◌, List, Bytes, All, length, Option, some, ok, arith,
}
use codecrafters_bittorrent.Utils.RawBytes.{Text, to_raw_string_lem}
use codecrafters_bittorrent.Utils.Words.{u32_mod}
use codecrafters_bittorrent.Peer.Message.{codes}
use codecrafters_bittorrent.Bencode.Value.{
  pos_int, Value, number, string, object, Fields, end, field,
}
use codecrafters_bittorrent.Bencode.Encode.{text_ltb, encode}
use codecrafters_bittorrent.Bencode.Wire.{IsCanonical}
use codecrafters_bittorrent.Bencode.Roundtrip.{IsOrdered, parse_bytes-encode}
use codecrafters_bittorrent.Tracker.Client.{Peer, parse_peers}
use codecrafters_bittorrent.Tracker.Client.Compact.{
  IsPeer, compact_all, compact_all-IsByte, parse_peers-compact_all,
}
use codecrafters_bittorrent.Tracker.Announce.{
  TrackerRequest, announce_request, response_of, get, announce,
}

-- What a tracker answers: an interval and the compact list of its peers.
abbrev pub answer : ℕ → List Peer → Value
answer interval peers = object (
    field (codes "interval") (number (pos_int interval))
      (field (codes "peers") (string (compact_all peers)) end))

answer-IsCanonical :
    (interval : ℕ) (peers : List Peer)
    → interval < u32_mod
    → All IsPeer peers
    → length (compact_all peers) < 2 ^ 64
    → IsCanonical (answer interval peers)
unfolding IsCanonical text_ltb
answer-IsCanonical interval peers small h fits = (
  (
    (
      omega arith,
      (
        omega arith,
        (
          omega arith,
          (omega arith, (omega arith, (omega arith, (omega arith, (omega arith, tt))))),
        ),
      ),
    ),
    omega arith,
  ),
  omega arith,
  tt,
  (
    ((omega arith, (omega arith, (omega arith, (omega arith, (omega arith, tt))))), omega arith),
    (compact_all-IsByte peers h, fits),
    (refl, tt),
    tt,
  ),
)

response_of-answer :
    (interval : ℕ) (peers : List Peer)
    → interval < u32_mod
    → All IsPeer peers
    → response_of (answer interval peers) ≡ ok (record { interval = interval; peers = peers })
unfolding response_of get
response_of-answer interval peers small h =
    let read : parse_peers (compact_all peers) ≡ ok peers =
      ap parse_peers (sym (to_raw_string_lem (compact_all peers)))
      ∙ parse_peers-compact_all peers h in
    let whole : interval % u32_mod ≡ interval = omega arith in rw (read, whole) refl

-- For a map whose `insert` appends a key above all others, an interval below 2^32, peers in the ranges
-- of their types, and fewer than 2^64 bytes: when the tracker answers the announce with the encoding
-- of the interval and the compact list of the peers, the announce gives exactly this interval and
-- these peers, in order.
pub announce-encode :
    (insert : Text → Value → Fields → Fields) (fetch : Text → Option Bytes) (url : Text)
    (request : TrackerRequest) (interval : ℕ) (peers : List Peer) (response : Bytes)
    → IsOrdered insert
    → interval < u32_mod
    → All IsPeer peers
    → length (compact_all peers) < 2 ^ 64
    → length response < 2 ^ 64
    → encode (answer interval peers) ≡ some response
    → fetch (announce_request url request) ≡ some response
    → announce insert fetch url request ≡ some (ok (record { interval = interval; peers = peers }))
unfolding announce
announce-encode insert fetch url request interval peers response ordered small h fits fits' e f =
    let canonical = answer-IsCanonical interval peers small h fits in
    rw
      (
        f,
        parse_bytes-encode insert ordered (answer interval peers) response canonical e fits',
        announce,
      )
      (ap some (response_of-answer interval peers small h))
