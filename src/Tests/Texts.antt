-- ===== src/Tests/Texts.antt =====
-- Runs of src/utils and of src/tracker/client.rs.
use codecrafters_bittorrent.Prelude.{
  ◌%◌, ◌≡◌, ◌≢◌, refl, ◌⊎◌, List, [], ◌∷◌, arith, Bytes, All, IsByte, some, ok, err,
}
use codecrafters_bittorrent.Utils.RawBytes.{to_raw_bytes, to_raw_string}
use codecrafters_bittorrent.Utils.Url.{url_encode}
use codecrafters_bittorrent.Utils.Url.Decode.{plain, percent_decode, percent_decode-url_encode}
use codecrafters_bittorrent.Torrent.Metainfo.{panicked}
use codecrafters_bittorrent.Tracker.Client.{Peer, parse_peers}
use codecrafters_bittorrent.Tracker.Client.Compact.{
  compact_all, parse_peers-compact_all, parse_peers-cases,
}

abbrev some_bytes : Bytes
some_bytes = 32 ∷ 0 ∷ 255 ∷ 97 ∷ []

some_bytes-IsByte : All IsByte some_bytes
some_bytes-IsByte = (omega arith, (omega arith, (omega arith, (omega arith, tt))))

percent_decode-url_encode_example : percent_decode plain (url_encode some_bytes) ≡ some some_bytes
percent_decode-url_encode_example = percent_decode-url_encode some_bytes some_bytes-IsByte

-- `%20%00%FFa`, as in the test of the repository.
url_encode_run : url_encode some_bytes ≡ 37 ∷ 50 ∷ 48 ∷ 37 ∷ 48 ∷ 48 ∷ 37 ∷ 70 ∷ 70 ∷ 97 ∷ []
unfolding url_encode
url_encode_run = refl

abbrev peers : List Peer
peers =
    record { ip = record { a = 127; b = 0; c = 0; d = 1 }; port = 6881 }
    ∷ record { ip = record { a = 192; b = 168; c = 1; d = 104 }; port = 6882 }
    ∷ []

parse_peers-compact_all_example : parse_peers (to_raw_string (compact_all peers)) ≡ ok peers
parse_peers-compact_all_example = parse_peers-compact_all peers (
  (omega arith, omega arith, omega arith, omega arith, omega arith),
  ((omega arith, omega arith, omega arith, omega arith, omega arith), tt),
)

parse_peers-cases_example :
    ((ps : List Peer) × (to_raw_bytes (127 ∷ 0 ∷ 0 ∷ 1 ∷ 26 ∷ []) ≡ compact_all ps)
      × (parse_peers (127 ∷ 0 ∷ 0 ∷ 1 ∷ 26 ∷ []) ≡ ok ps))
    ⊎ ((5 % 6 ≢ 0) × (parse_peers (127 ∷ 0 ∷ 0 ∷ 1 ∷ 26 ∷ []) ≡ err panicked))
parse_peers-cases_example = parse_peers-cases (127 ∷ 0 ∷ 0 ∷ 1 ∷ 26 ∷ [])
