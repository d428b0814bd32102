-- ===== src/Tracker/Client.antt =====
-- src/tracker/client.rs: the compact list of peers in a tracker's answer.
pub mod Compact
pub mod Address
use codecrafters_bittorrent.Prelude.{
  ℕ, zero, suc, ◌+◌, ◌*◌, List, [], ◌∷◌, Bytes, length, Result, ok, err,
}
use codecrafters_bittorrent.Utils.RawBytes.{Text, to_raw_bytes}
use codecrafters_bittorrent.Torrent.Metainfo.{Panic, panicked, chunks}

-- An IPv4 address, by its four bytes.
pub record Ipv4Addr : Type 0 where
  pub a : ℕ
  pub b : ℕ
  pub c : ℕ
  pub d : ℕ

pub record Peer : Type 0 where
  pub ip : Ipv4Addr
  pub port : ℕ

-- A chunk of six bytes. The `|` of a byte and one that is shifted above it is their sum.
unfoldable pub peer_of_chunk : Bytes → Result Panic Peer
peer_of_chunk (a ∷ b ∷ c ∷ d ∷ high ∷ low ∷ []) =
    ok (record { ip = record { a = a; b = b; c = c; d = d }; port = high * 256 + low })
peer_of_chunk _ = err panicked

abbrev pub and_then : Result Panic Peer → Result Panic (List Peer) → Result Panic (List Peer)
and_then (err e) rest = err e
and_then (ok p) (err e) = err e
and_then (ok p) (ok ps) = ok (p ∷ ps)

unfoldable pub parse_chunks : List Bytes → Result Panic (List Peer)
parse_chunks [] = ok []
parse_chunks (chunk ∷ rest) = and_then (peer_of_chunk chunk) (parse_chunks rest)

unfoldable pub parse_peers : Text → Result Panic (List Peer)
parse_peers peers = let bytes = to_raw_bytes peers in parse_chunks (chunks (length bytes) 6 bytes)
