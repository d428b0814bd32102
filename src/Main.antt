-- ===== src/Main.antt =====
-- src/main.rs: the commands, what they print, and the functions behind them. The argument with index 0 is
-- the program's name. Input and output of files, the network and the crates are parameters.
pub mod Piece
pub mod MagnetCommands
use codecrafters_bittorrent.Prelude.{
  ℕ, zero, suc, ◌+◌, ◌-◌, ◌^◌, Bool, true, false, List, [], ◌∷◌, ◌++◌, map, Bytes, get_elem?,
  Option, none, some, Result, ok, err, ◌>>=◌, list_eq, if◌then◌else◌,
}
use codecrafters_bittorrent.Utils.RawBytes.{Text, to_raw_bytes}
use codecrafters_bittorrent.Utils.Log.{
  GlobalLog, LogLevel, set_global_log_level, set_global_log_handler, console_logger,
}
use codecrafters_bittorrent.Bencode.Decimal.{decimal, parse_unsigned}
use codecrafters_bittorrent.Bencode.Value.{Value, Fields}
use codecrafters_bittorrent.Bencode.Parser.{ParseError, parse_bytes}
use codecrafters_bittorrent.Torrent.Metainfo.{
  TorrentMetainfo, Codec, Panic, panicked, from_bytes, get_info_hash_hex, get_piece_hashes,
}
use codecrafters_bittorrent.Tracker.Client.{Peer}
use codecrafters_bittorrent.Tracker.Client.Address
use codecrafters_bittorrent.Tracker.Client.Address.{AddrError}
use codecrafters_bittorrent.Tracker.Announce.{TrackerRequest, TrackerResponse}
use codecrafters_bittorrent.Peer.Message
use codecrafters_bittorrent.Peer.Message.{codes, HandshakeRequest}
use codecrafters_bittorrent.Peer.Connection.Handshake.{
  Transport, ConnectError, PeerConnection, connect,
}

abbrev pub client_id : Text
client_id = codes "-CT0001-123456789012"

-- With their arguments.
pub data Command : Type 0 where
  decode info peers magnet_parse magnet_handshake magnet_info : Text → Command
  handshake : Text → Peer → Command
  download_piece magnet_download_piece : Text → Text → ℕ → Command
  download magnet_download : Text → Text → Command
  unknown : Text → Command

-- `args[i]`, which panics out of range, and the `expect` of what is parsed from it.
unfoldable pub arg : List Text → ℕ → Result Panic Text
arg args i = elim (get_elem? args i) [ none ↦ err panicked | some s ↦ ok s ]

abbrev pub expect_peer : Result AddrError Peer → Result Panic Peer
expect_peer (ok peer) = ok peer
expect_peer (err e) = err panicked

unfoldable pub piece_index_of : Text → Result Panic ℕ
piece_index_of s = elim (parse_unsigned (2 ^ 32 - 1) s) [ none ↦ err panicked | some i ↦ ok i ]

unfoldable pub one_argument : (Text → Command) → List Text → Result Panic Command
unfolding arg
one_argument command args = do a ← arg args 2; ok (command a)

unfoldable pub with_piece : (Text → Text → ℕ → Command) → List Text → Result Panic Command
unfolding arg piece_index_of
with_piece command args = do
  output_file ← arg args 3
  source ← arg args 4
  piece ← arg args 5
  piece_index ← piece_index_of piece
  ok (command output_file source piece_index)

unfoldable pub with_output : (Text → Text → Command) → List Text → Result Panic Command
unfolding arg
with_output command args = do
  output_file ← arg args 3
  source ← arg args 4
  ok (command output_file source)

unfoldable pub handshake_command : List Text → Result Panic Command
unfolding arg
handshake_command args = do
  metainfo_file ← arg args 2
  address ← arg args 3
  peer ← expect_peer (Address.from_str address)
  ok (handshake metainfo_file peer)

-- The chain of tests in `main`.
unfoldable pub dispatch : Text → List Text → Result Panic Command
unfolding one_argument with_piece with_output handshake_command
dispatch command args =
    if list_eq command (codes "decode")
    then one_argument decode args
    else if list_eq command (codes "info")
    then one_argument info args
    else if list_eq command (codes "peers")
    then one_argument peers args
    else if list_eq command (codes "handshake")
    then handshake_command args
    else if list_eq command (codes "download_piece")
    then with_piece download_piece args
    else if list_eq command (codes "download")
    then with_output download args
    else if list_eq command (codes "magnet_parse")
    then one_argument magnet_parse args
    else if list_eq command (codes "magnet_handshake")
    then one_argument magnet_handshake args
    else if list_eq command (codes "magnet_info")
    then one_argument magnet_info args
    else if list_eq command (codes "magnet_download_piece")
    then with_piece magnet_download_piece args
    else if list_eq command (codes "magnet_download")
    then with_output magnet_download args
    else ok (unknown command)

unfoldable pub command_of : List Text → Result Panic Command
unfolding arg dispatch
command_of args = do command ← arg args 1; dispatch command args

-- The logger as `main` sets it up.
unfoldable pub set_up_log : GlobalLog → GlobalLog
unfolding set_global_log_level set_global_log_handler
set_up_log g = set_global_log_handler console_logger (set_global_log_level LogLevel.debug g)

-- What serde_json, the file system, the tracker and a peer do.
pub record Outside : Type 0 where
  pub insert : Text → Value → Fields → Fields
  pub to_json : Value → Text
  pub read : Text → Option Bytes
  pub codec : Codec
  pub announce : Text → TrackerRequest → Option (Result Panic TrackerResponse)
  pub transport : Peer → Transport

unfoldable pub print_metainfo : Codec → TorrentMetainfo → List Text
unfolding get_info_hash_hex get_piece_hashes
print_metainfo c metainfo =
    (codes "Tracker URL: " ++ metainfo.announce)
    ∷ (codes "Length: " ++ decimal metainfo.length)
    ∷ (codes "Info Hash: " ++ get_info_hash_hex c metainfo)
    ∷ (codes "Piece Length: " ++ decimal metainfo.piece_length)
    ∷ codes "Piece Hashes:"
    ∷ get_piece_hashes c metainfo

unfoldable pub tracker_request : TorrentMetainfo → TrackerRequest
tracker_request m = record {
  info_hash = m.info_hash;
  peer_id = client_id;
  port = 6881;
  uploaded = 0;
  downloaded = 0;
  left = m.length;
  compact = 1;
}

abbrev pub expect_response : Option (Result Panic TrackerResponse) → Result Panic TrackerResponse
expect_response none = err panicked
expect_response (some r) = r

abbrev pub expect_connection : Result ConnectError PeerConnection → Result Panic PeerConnection
expect_connection (ok conn) = ok conn
expect_connection (err e) = err panicked

abbrev pub unwrap {ℓ} : {A : Type ℓ} → Option A → Result Panic A
unwrap none = err panicked
unwrap (some a) = ok a

abbrev pub expect_value : Result ParseError Value → Result Panic Value
expect_value (ok v) = ok v
expect_value (err e) = err panicked

module _ (o : Outside) where
  -- The argument, by its bytes.
  unfoldable pub decode_bencoded_string : Bytes → Result Panic (List Text)
  decode_bencoded_string encoded_value = do
    decoded_value ← expect_value (parse_bytes o.insert encoded_value)
    ok (o.to_json decoded_value ∷ [])

  -- `TorrentMetainfo::parse`.
  unfoldable pub parse_file : Text → Result Panic TorrentMetainfo
  unfolding from_bytes
  parse_file path = elim (o.read path) [
    | none ↦ err panicked
    | some bytes ↦ from_bytes o.codec bytes
  ]

  unfoldable pub print_torrent_info : Text → Result Panic (List Text)
  unfolding parse_file print_metainfo
  print_torrent_info path = do metainfo ← parse_file path; ok (print_metainfo o.codec metainfo)

  unfoldable pub request_tracker_peers : Text → Result Panic (List Text)
  unfolding parse_file tracker_request
  request_tracker_peers path = do
    metainfo ← parse_file path
    response ← expect_response (o.announce metainfo.announce (tracker_request metainfo))
    ok (map Address.fmt response.peers)

  unfoldable pub peer_handshake : Text → Peer → Result Panic (List Text)
  unfolding parse_file
  peer_handshake path peer = do
    metainfo ← parse_file path
    let request = Message.new metainfo.info_hash (to_raw_bytes client_id)
    conn ← expect_connection (connect (o.transport peer) request)
    peer_id ← unwrap conn.peer_id
    ok ((codes "Peer ID: " ++ o.codec.hex peer_id) ∷ [])
