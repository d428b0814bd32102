-- ===== src/Tests/Values.antt =====
-- Runs of src/bencode.rs, and of an announce of src/tracker/client.rs that is answered in it.
use codecrafters_bittorrent.Prelude.{
  List, Bytes, [], ◌∷◌, ◌++◌, ◌≡◌, ◌⊎◌, refl, some, ok, err, list_eq, if◌then◌else◌, arith, ap,
}
use codecrafters_bittorrent.Utils.RawBytes.{Text, to_raw_bytes}
use codecrafters_bittorrent.Peer.Message.{codes}
use codecrafters_bittorrent.Bencode.Decimal.{decimal, digits_of}
use codecrafters_bittorrent.Bencode.Value.{
  Value, number, pos_int, string, array, object, cons, nil, Fields, end, field, null,
}
use codecrafters_bittorrent.Bencode.Encode.{
  text_ltb, encode, encode_string, sort_entries, concat_entries,
}
use codecrafters_bittorrent.Bencode.Parser.{panicked, parse_bytes}
use codecrafters_bittorrent.Bencode.Wire.{IsCanonical}
use codecrafters_bittorrent.Bencode.Roundtrip.{IsOrdered, parse_bytes-encode}
use codecrafters_bittorrent.Bencode.Totality.{parse_bytes_ends}
use codecrafters_bittorrent.Utils.Url.{url_encode}
use codecrafters_bittorrent.Tracker.Client.{Peer}
use codecrafters_bittorrent.Tracker.Announce.{TrackerRequest, announce_request, announce}
use codecrafters_bittorrent.Tracker.Announce.Answer.{answer, announce-encode}

-- A map that is sorted by its keys.
insert : Text → Value → Fields → Fields
unfolding text_ltb
insert key v end = field key v end
insert key v (field k w fields) =
    let rest = insert key v fields in
    if text_ltb k key
    then field k w rest
    else if list_eq k key
    then field key v fields
    else field key v (field k w fields)

insert-IsOrdered : IsOrdered insert
unfolding insert
insert-IsOrdered key v end h = refl
insert-IsOrdered key v (field k w fields) h =
    rw h.0 (ap (field k w) (insert-IsOrdered key v fields h.1))

-- `d3:agei30e4:listl1:aee`.
abbrev a_value : Value
a_value = object (
    field (codes "age") (number (pos_int 30))
      (field (codes "list") (array (cons (string (codes "a")) nil)) end))

a_value-IsCanonical : IsCanonical a_value
unfolding IsCanonical text_ltb
a_value-IsCanonical = (
  ((omega arith, (omega arith, (omega arith, tt))), omega arith),
  omega arith,
  tt,
  (
    ((omega arith, (omega arith, (omega arith, (omega arith, tt)))), omega arith),
    (((omega arith, tt), omega arith), tt),
    (refl, tt),
    tt,
  ),
)

encode_run : encode a_value ≡ some (codes "d3:agei30e4:listl1:aee")
unfolding encode decimal digits_of sort_entries concat_entries encode_string text_ltb to_raw_bytes
encode_run = refl

parse_bytes-encode_example : parse_bytes insert (codes "d3:agei30e4:listl1:aee") ≡ ok a_value
parse_bytes-encode_example =
    parse_bytes-encode insert insert-IsOrdered a_value (codes "d3:agei30e4:listl1:aee")
      a_value-IsCanonical encode_run (omega arith)

parse_bytes_ends_example :
    ((v : Value) × (parse_bytes insert (codes "di1ei1ee") ≡ ok v))
    ⊎ (parse_bytes insert (codes "di1ei1ee") ≡ err panicked)
parse_bytes_ends_example = parse_bytes_ends insert (codes "di1ei1ee")

-- Nothing is written as the empty list.
encode_null : encode null ≡ encode (array nil)
unfolding encode
encode_null = refl

-- One peer, 127.0.0.1:6881, and an interval of a minute.
abbrev one_peer : List Peer
one_peer = record { ip = record { a = 127; b = 0; c = 0; d = 1 }; port = 6881 } ∷ []

abbrev a_response : Bytes
a_response = codes "d8:intervali60e5:peers6:" ++ 127 ∷ 0 ∷ 0 ∷ 1 ∷ 26 ∷ 225 ∷ 101 ∷ []

encode-answer : encode (answer 60 one_peer) ≡ some a_response
unfolding encode decimal digits_of sort_entries concat_entries encode_string text_ltb to_raw_bytes
encode-answer = refl

abbrev a_request : TrackerRequest
a_request = record {
  info_hash = 1 ∷ [];
  peer_id = codes "id";
  port = 6881;
  uploaded = 0;
  downloaded = 0;
  left = 100;
  compact = 1;
}

announce-encode_example :
    announce insert (λ url. some a_response) (codes "http://tracker") a_request
    ≡ some (ok (record { interval = 60; peers = one_peer }))
announce-encode_example =
    announce-encode insert (λ url. some a_response) (codes "http://tracker") a_request 60 one_peer
      a_response insert-IsOrdered (omega arith)
      ((omega arith, omega arith, omega arith, omega arith, omega arith), tt) (omega arith)
      (omega arith) encode-answer refl

announce_request_run :
    announce_request (codes "http://tracker") a_request
    ≡ codes
        "http://tracker?info_hash=%01&peer_id=id&port=6881&uploaded=0&downloaded=0&left=100&compact=1"
unfolding announce_request decimal digits_of url_encode
announce_request_run = refl
