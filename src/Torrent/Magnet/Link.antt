-- ===== src/Torrent/Magnet/Link.antt =====
-- `MagnetLink` of src/torrent/magnet.rs and its `parse`. The crate url is a parameter; a `HashMap` is the
-- list of its entries, whose order nothing depends on.
pub mod Values
pub mod Parts
pub mod Parsed
use codecrafters_bittorrent.Prelude.{
  ℕ, not, List, [], ◌∷◌, ◌++◌, map, Option, none, some, Result, ok, err, ◌>>=◌, list_eq,
  if◌then◌else◌,
}
use codecrafters_bittorrent.Utils.RawBytes.{Text}
use codecrafters_bittorrent.Peer.Message.{codes}
use codecrafters_bittorrent.Bencode.Decimal.{parse_usize}
use codecrafters_bittorrent.Torrent.Magnet.{
  ExactTopic, PeerAddress, AddressError, parse_exact_topic, parse_peer,
}
use codecrafters_bittorrent.Torrent.Magnet.Select.{SelectError, parse_select_only}

-- What the crate does for this module.
pub record UrlCrate (Url : Type 0) : Type 0 where
  pub parse_url : Text → Option Url
  pub scheme : Url → Text
  -- the decoded parameters of the query, in order
  pub query_pairs : Url → List (Text × Text)
  pub to_string : Url → Text

abbrev pub Params : Type 0
Params = List (Text × List Text)

pub record MagnetLink (Url : Type 0) : Type 0 where
  pub exact_topics : List ExactTopic
  pub display_name : Option Text
  pub trackers : List Url
  pub web_seeds : List Url
  pub acceptable_sources : List Url
  pub exact_sources : List Url
  pub peers : List PeerAddress
  pub length : Option ℕ
  pub select_only : Option (List ℕ)
  pub other_params : Params

pub data LinkError : Type 0 where
  invalid_url wrong_scheme no_topic invalid_length : LinkError
  invalid_urls : Text → LinkError
  invalid_peer : AddressError → LinkError
  invalid_selection : SelectError → LinkError

-- `entry(k).or_default().push(v)`.
unfoldable pub push_param : Text → Text → Params → Params
push_param k v [] = (k, v ∷ []) ∷ []
push_param k v ((key, values) ∷ params) =
    let rest = push_param k v params in
    if list_eq key k then (key, values ++ v ∷ []) ∷ params else (key, values) ∷ rest

unfoldable pub collect_params : Params → List (Text × Text) → Params
unfolding push_param
collect_params params [] = params
collect_params params ((k, v) ∷ pairs) = collect_params (push_param k v params) pairs

unfoldable pub get : Text → Params → Option (List Text)
get k [] = none
get k ((key, values) ∷ params) =
    let rest = get k params in if list_eq key k then some values else rest

-- What `remove` leaves; a key stands at most once.
unfoldable pub remove : Text → Params → Params
remove k [] = []
remove k ((key, values) ∷ params) =
    let rest = remove k params in if list_eq key k then params else (key, values) ∷ rest

unfoldable pub last : List Text → Option Text
last [] = none
last (v ∷ []) = some v
last (v ∷ w ∷ values) = last (w ∷ values)

abbrev pub last_of : Option (List Text) → Option Text
last_of none = none
last_of (some values) = last values

abbrev pub values_of : Option (List Text) → List Text
values_of none = []
values_of (some values) = values

unfoldable pub collect_peers : List Text → Result LinkError (List PeerAddress)
collect_peers [] = ok []
collect_peers (v ∷ values) = elim (parse_peer v) [
  | err e ↦ err (invalid_peer e)
  | ok peer ↦ collect_peers values >>= λ peers. ok (peer ∷ peers)
]

unfoldable pub parse_length : Option Text → Result LinkError (Option ℕ)
parse_length none = ok none
parse_length (some s) = elim (parse_usize s) [ none ↦ err invalid_length | some n ↦ ok (some n) ]

unfoldable pub parse_selection : Option Text → Result LinkError (Option (List ℕ))
parse_selection none = ok none
parse_selection (some value) = elim (parse_select_only value) [
  | err e ↦ err (invalid_selection e)
  | ok indices ↦ ok (some indices)
]

module _ {Url : Type 0} (c : UrlCrate Url) where
  unfoldable pub parse_urls : Text → List Text → Result LinkError (List Url)
  parse_urls key [] = ok []
  parse_urls key (raw ∷ values) = elim (c.parse_url raw) [
    | none ↦ err (invalid_urls key)
    | some url ↦ parse_urls key values >>= λ urls. ok (url ∷ urls)
  ]

  -- The key is for the message.
  unfoldable pub collect_urls : Text → Option (List Text) → Result LinkError (List Url)
  unfolding parse_urls
  collect_urls key values = parse_urls key (values_of values)

  -- What follows `params.remove("xt")`, with the values that it gave.
  unfoldable pub parse_params : List Text → Params → Result LinkError (MagnetLink Url)
  unfolding get remove collect_peers parse_length parse_selection collect_urls last
  parse_params xt_values p₁ =
      let p₂ = remove (codes "tr") p₁ in
      let p₃ = remove (codes "ws") p₂ in
      let p₄ = remove (codes "as") p₃ in
      let p₅ = remove (codes "xs") p₄ in
      let p₆ = remove (codes "x.pe") p₅ in
      let p₇ = remove (codes "xl") p₆ in
      do
        trackers ← collect_urls (codes "tr") (get (codes "tr") p₁)
        web_seeds ← collect_urls (codes "ws") (get (codes "ws") p₂)
        acceptable_sources ← collect_urls (codes "as") (get (codes "as") p₃)
        exact_sources ← collect_urls (codes "xs") (get (codes "xs") p₄)
        peers ← collect_peers (values_of (get (codes "x.pe") p₅))
        length ← parse_length (last_of (get (codes "xl") p₆))
        select_only ← parse_selection (last_of (get (codes "so") p₇))
        ok (record {
          exact_topics = map parse_exact_topic xt_values;
          display_name = last_of (get (codes "dn") p₁);
          trackers = trackers;
          web_seeds = web_seeds;
          acceptable_sources = acceptable_sources;
          exact_sources = exact_sources;
          peers = peers;
          length = length;
          select_only = select_only;
          other_params = remove (codes "so") p₇;
        })

  unfoldable pub parse_url_params : Url → Result LinkError (MagnetLink Url)
  unfolding parse_params collect_params
  parse_url_params url =
      let params = collect_params [] (c.query_pairs url) in
      if not (list_eq (c.scheme url) (codes "magnet"))
      then err wrong_scheme
      else elim (get (codes "xt") params) [
        | none ↦ err no_topic
        | some xt_values ↦ parse_params xt_values (remove (codes "xt") params)
      ]

  unfoldable pub parse : Text → Result LinkError (MagnetLink Url)
  unfolding parse_url_params
  parse input = elim (c.parse_url input) [
    | none ↦ err invalid_url
    | some url ↦ parse_url_params url
  ]
