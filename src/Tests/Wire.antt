-- ===== src/Tests/Wire.antt =====
-- Runs of the wire protocol of src/peer/connection.rs.
use codecrafters_bittorrent.Prelude.{
  ◌+◌, ◌≡◌, refl, ◌↔◌, true, false, [], ◌∷◌, ◌++◌, map, arith, Bytes, replicate, ok, ◌>>=◌,
}
use codecrafters_bittorrent.Utils.RawBytes.{to_raw_string}
use codecrafters_bittorrent.Utils.Words.{from_be_bytes}
use codecrafters_bittorrent.Peer.Message.{as_bytes, new, protocol}
use codecrafters_bittorrent.Peer.Connection.{
  read_exact, PeerEvent, PeerCommand, decode, read_one_message, write_one_message,
}
use codecrafters_bittorrent.Peer.Connection.Codec.{
  frame, event_of, read_one_message-frame, read_one_message-write_one_message,
}
use codecrafters_bittorrent.Peer.Connection.Decode.{needs, Reads, decode-Reads}
use codecrafters_bittorrent.Peer.Connection.Reader.{
  PeerStateSnapshot, reader, write_all, update_states, reader-write_all, reader_ends,
}
use codecrafters_bittorrent.Peer.Connection.Handshake.{
  read_answer, check_answer, Transport, Answer, Agrees, connect, established, layout, connect_iff,
}

abbrev a_request : PeerCommand
a_request = PeerCommand.request 3 16_384 16_384

read_one_message-write_one_message_example :
    read_one_message (write_one_message a_request ++ 9 ∷ []) ≡ ok (event_of a_request, 9 ∷ [])
read_one_message-write_one_message_example =
    read_one_message-write_one_message a_request (9 ∷ []) (omega arith, omega arith, omega arith)

abbrev a_block : Bytes
a_block = 0 ∷ 0 ∷ 0 ∷ 1 ∷ 0 ∷ 0 ∷ 64 ∷ 0 ∷ 170 ∷ 187 ∷ []

read_one_message-frame_example :
    read_one_message (frame 7 a_block ++ 9 ∷ []) ≡ (decode 7 a_block >>= λ evt. ok (evt, 9 ∷ []))
read_one_message-frame_example = read_one_message-frame 7 a_block (9 ∷ []) (omega arith)

-- The block is decoded.
decode_block : decode 7 a_block ≡ ok (PeerEvent.piece 1 16_384 (170 ∷ 187 ∷ []))
unfolding decode from_be_bytes
decode_block = refl

decode-Reads_example : Reads (needs 4) (0 ∷ 0 ∷ []) (decode 4 (0 ∷ 0 ∷ []))
decode-Reads_example = decode-Reads 4 (0 ∷ 0 ∷ [])

abbrev a_state : PeerStateSnapshot
a_state = record {
  choked = true;
  interested = false;
  peer_interested = false;
  extension_supported = false;
}

reader-write_all_example :
    reader 3 a_state (write_all (PeerCommand.interested ∷ a_request ∷ [])) ≡ (
      map event_of (PeerCommand.interested ∷ a_request ∷ []) ++ PeerEvent.io_error ∷ [],
      update_states a_state (map event_of (PeerCommand.interested ∷ a_request ∷ [])),
    )
reader-write_all_example =
    reader-write_all 3 a_state (PeerCommand.interested ∷ a_request ∷ [])
      (tt, ((omega arith, omega arith, omega arith), tt)) (omega arith)

reader_ends_example :
    reader (6 + 4) a_state (0 ∷ 0 ∷ 0 ∷ 1 ∷ 1 ∷ []) ≡ reader 6 a_state (0 ∷ 0 ∷ 0 ∷ 1 ∷ 1 ∷ [])
reader_ends_example = reader_ends 6 4 a_state (0 ∷ 0 ∷ 0 ∷ 1 ∷ 1 ∷ []) (omega arith)

abbrev an_answer : Answer
an_answer = record {
  pstr = protocol;
  reserved = replicate 8 0;
  info_hash = replicate 20 7;
  peer_id = replicate 20 80;
  stream = 0 ∷ 0 ∷ 0 ∷ 0 ∷ [];
}

abbrev a_transport : Transport
a_transport = record { connects = true; writes = true; clones = true; incoming = layout an_answer }

connect_iff_example :
    (connect a_transport (new (replicate 20 7) (replicate 20 45)) ≡ ok (established an_answer)) ↔ (
      (a : Answer) × Agrees a_transport (new (replicate 20 7) (replicate 20 45)) a
      × (established an_answer ≡ established a))
connect_iff_example =
    connect_iff a_transport (new (replicate 20 7) (replicate 20 45)) (established an_answer)

-- The connection is made.
connect_run :
    connect a_transport (new (replicate 20 7) (replicate 20 45)) ≡ ok (established an_answer)
unfolding connect new as_bytes read_answer read_exact check_answer to_raw_string
connect_run = refl
