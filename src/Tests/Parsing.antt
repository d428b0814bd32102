-- ===== src/Tests/Parsing.antt =====
-- A run of `MagnetLink::parse` of src/torrent/magnet.rs.
use codecrafters_bittorrent.Prelude.{◌≡◌, refl, [], ◌∷◌, Option, none, some, ok, map}
use codecrafters_bittorrent.Utils.RawBytes.{Text}
use codecrafters_bittorrent.Utils.Strings.{split, split_once}
use codecrafters_bittorrent.Peer.Message.{codes}
use codecrafters_bittorrent.Bencode.Decimal.{parse_unsigned}
use codecrafters_bittorrent.Torrent.Magnet.{btih, parse_exact_topic, parse_peer}
use codecrafters_bittorrent.Torrent.Magnet.Link.{UrlCrate, MagnetLink, parse}
use codecrafters_bittorrent.Torrent.Magnet.Link.Values.{values}
use codecrafters_bittorrent.Torrent.Magnet.Link.Parsed.{IsReading, parse-IsReading}

abbrev behind : Option (Text × Text) → Text
behind none = []
behind (some (front, back)) = back

abbrev in_front : Option (Text × Text) → Text
in_front none = []
in_front (some (front, back)) = front

abbrev is_split : Option (Text × Text) → Text → Option Text
is_split none s = none
is_split (some parts) s = some s

abbrev pair_of : Text → Text × Text
pair_of s = (in_front (split_once 61 s), behind (split_once 61 s))

-- A URL is a text with a colon; nothing is escaped.
abbrev plain_urls : UrlCrate Text
plain_urls = record {
  parse_url = λ s. is_split (split_once 58 s) s;
  scheme = λ s. in_front (split_once 58 s);
  query_pairs = λ s. map pair_of (split 38 (behind (split_once 63 s)));
  to_string = λ s. s;
}

abbrev magnet : Text
magnet = codes "magnet:?xt=urn:btih:ab&dn=x&tr=udp:a&dn=y&tr=udp:b&x.pe=h:80&z=1"

abbrev link : MagnetLink Text
link = record {
  exact_topics = btih (codes "ab") ∷ [];
  display_name = some (codes "y");
  trackers = codes "udp:a" ∷ codes "udp:b" ∷ [];
  web_seeds = [];
  acceptable_sources = [];
  exact_sources = [];
  peers = record { host = codes "h"; port = 80 } ∷ [];
  length = none;
  select_only = none;
  other_params = (codes "dn", codes "x" ∷ codes "y" ∷ []) ∷ (codes "z", codes "1" ∷ []) ∷ [];
}

magnet_parsed : parse plain_urls magnet ≡ ok link
unfolding parse split_once split parse_peer parse_unsigned parse_exact_topic
magnet_parsed = refl

parse-IsReading_example :
    (url : Text) × (plain_urls.parse_url magnet ≡ some url)
    × (plain_urls.scheme url ≡ codes "magnet")
    × (¬ (values (codes "xt") (plain_urls.query_pairs url) ≡ []))
    × IsReading plain_urls (plain_urls.query_pairs url) link
parse-IsReading_example = parse-IsReading plain_urls link magnet magnet_parsed
