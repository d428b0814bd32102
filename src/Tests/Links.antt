-- ===== src/Tests/Links.antt =====
-- Runs of src/torrent/magnet.rs, and of the addresses of src/tracker/client.rs.
use codecrafters_bittorrent.Prelude.{◌≡◌, refl, [], ◌↔◌, ◌⊎◌, ◌∷◌, ◌++◌, some, ok, arith}
use codecrafters_bittorrent.Peer.Message.{codes}
use codecrafters_bittorrent.Bencode.Decimal.{decimal, parse_unsigned, parse_digits}
use codecrafters_bittorrent.Torrent.Magnet.{get_hash, parse_exact_topic, parse_peer}
use codecrafters_bittorrent.Tracker.Client.{Peer}
use codecrafters_bittorrent.Tracker.Client.Address
use codecrafters_bittorrent.Tracker.Client.Address.Printed.{from_str-fmt}
use codecrafters_bittorrent.Utils.Ranges.{range_from}
use codecrafters_bittorrent.Torrent.Magnet.Select.{parse_select_only}
use codecrafters_bittorrent.Torrent.Magnet.Select.Print.{
  index, range, print, expand_all, parse_select_only-print,
}
use codecrafters_bittorrent.Torrent.Magnet.Addresses.{
  parse_peer-decimal, get_hash-parse_exact_topic,
}

parse_peer-decimal_example :
    parse_peer (codes "[2001:db8::1]" ++ 58 ∷ decimal 51_413)
    ≡ ok (record { host = codes "[2001:db8::1]"; port = 51_413 })
parse_peer-decimal_example = parse_peer-decimal (codes "[2001:db8::1]") 51_413 (omega arith)

get_hash-parse_exact_topic_example :
    (get_hash (parse_exact_topic (codes "urn:btmh:abc")) ≡ some (codes "abc")) ↔ (
      (codes "urn:btmh:abc" ≡ codes "urn:btih:" ++ codes "abc")
      ⊎ (codes "urn:btmh:abc" ≡ codes "urn:btmh:" ++ codes "abc"))
get_hash-parse_exact_topic_example = get_hash-parse_exact_topic (codes "urn:btmh:abc") (codes "abc")

parse_select_only-print_example :
    parse_select_only (print (index 0 ∷ index 2 ∷ range 6 8 ∷ []))
    ≡ ok (expand_all (index 0 ∷ index 2 ∷ range 6 8 ∷ []))
parse_select_only-print_example =
    parse_select_only-print (index 0 ∷ index 2 ∷ range 6 8 ∷ []) (omega arith)

-- The example of the source's comment.
select_only_documented : parse_select_only (codes "0,2,4,6-8") ≡ ok (0 ∷ 2 ∷ 4 ∷ 6 ∷ 7 ∷ 8 ∷ [])
unfolding parse_select_only parse_unsigned parse_digits range_from
select_only_documented = refl

abbrev local : Peer
local = record { ip = record { a = 127; b = 0; c = 0; d = 1 }; port = 6881 }

from_str-fmt_example : Address.from_str (Address.fmt local) ≡ ok local
from_str-fmt_example = from_str-fmt local (record {
  octet_a = omega arith;
  octet_b = omega arith;
  octet_c = omega arith;
  octet_d = omega arith;
  port_fits = omega arith;
})
