-- ===== src/Torrent/Magnet.antt =====
-- src/torrent/magnet.rs: the topics and the peer addresses of a magnet link.
pub mod Addresses
pub mod Select
pub mod Link
use codecrafters_bittorrent.Prelude.{
  ℕ, ◌^◌, ◌-◌, Bool, true, false, List, [], ◌∷◌, ◌++◌, Option, none, some, Result, ok, err, ◌==◌,
  if◌then◌else◌,
}
use codecrafters_bittorrent.Utils.RawBytes.{Text}
use codecrafters_bittorrent.Peer.Message.{codes}
use codecrafters_bittorrent.Bencode.Decimal.{parse_unsigned}

pub data ExactTopic : Type 0 where
  btih btmh other : Text → ExactTopic

unfoldable pub get_hash : ExactTopic → Option Text
get_hash (btih s) = some s
get_hash (btmh s) = some s
get_hash (other s) = none

pub record PeerAddress : Type 0 where
  pub host : Text
  pub port : ℕ

-- The value has no port, or one that is no number of 16 bits.
pub data AddressError : Type 0 where
  no_port invalid_port : AddressError

unfoldable pub strip_prefix : Text → Text → Option Text
strip_prefix [] s = some s
strip_prefix (p ∷ prefix) [] = none
strip_prefix (p ∷ prefix) (c ∷ s) =
    let rest = strip_prefix prefix s in if p == c then rest else none

-- Each call of the code succeeds.
unfoldable pub parse_exact_topic : Text → ExactTopic
unfolding strip_prefix
parse_exact_topic xt = elim (strip_prefix (codes "urn:btih:") xt) [
  | some rest ↦ btih rest
  | none ↦ elim (strip_prefix (codes "urn:btmh:") xt) [ some rest ↦ btmh rest | none ↦ other xt ]
]

abbrev pub before : ℕ → Option (Text × Text) → Option (Text × Text)
before c none = none
before c (some (front, back)) = some (c ∷ front, back)

-- What stands before and behind the last separator.
unfoldable pub rsplit_once : ℕ → Text → Option (Text × Text)
rsplit_once separator [] = none
rsplit_once separator (c ∷ s) = elim (rsplit_once separator s) [
  | some split ↦ before c (some split)
  | none ↦ if c == separator then some ([], s) else none
]

unfoldable pub parse_peer : Text → Result AddressError PeerAddress
unfolding rsplit_once
parse_peer value = elim (rsplit_once 58 value) [
  | none ↦ err no_port
  | some split ↦ elim (parse_unsigned (2 ^ 16 - 1) split.1) [
    | none ↦ err invalid_port
    | some port ↦ ok (record { host = split.0; port = port })
  ]
]
