-- ===== src/Peer/Metadata.antt =====
-- src/peer/metadata.rs: the handler that fetches the info dictionary of a magnet link from a peer, in
-- pieces of 16 KiB. Bencode is serde_bencode's; whether a send succeeds is an argument.
pub mod Fetcher
pub mod Fetch
pub mod Sets
pub mod Buffer
pub mod Requests
pub mod Assembly
use codecrafters_bittorrent.Prelude.{
  ℕ, zero, suc, ◌+◌, ◌-◌, ◌*◌, ◌/◌, ◌%◌, ◌^◌, min, Bool, true, false, not, ◌&&◌, ◌||◌, List, [],
  ◌∷◌, ◌++◌, Bytes, length, take, drop, replicate, Option, none, some, Result, ok, err, leb, ltb,
  ◌==◌, if◌then◌else◌,
}
use codecrafters_bittorrent.Utils.RawBytes.{Text}
use codecrafters_bittorrent.Peer.Message.{codes}
use codecrafters_bittorrent.Peer.Connection.{PeerCommand, PeerEvent}
use codecrafters_bittorrent.Peer.Connection.Handshake.{PeerConnection}
use codecrafters_bittorrent.Peer.Extension
use codecrafters_bittorrent.Peer.Extension.{
  ExtensionHandshakePayload, SerdeBencode, get_extension_id,
}
use codecrafters_bittorrent.Peer.Session.{SessionControl, continue, stop, PeerSessionHandler}
use codecrafters_bittorrent.Peer.Metadata.Fetcher.{
  metadata_extension_name, my_metadata_extension_message_id, u64_mod, not_last_piece_size, as_u64,
  DataResponsePayloadSerde, Setting, MetadataFetcher, MetadataError, M, bind_result, pure, fail,
  required, ensure, contains, insert, zeroed, copy_piece, of_result, expected_piece_count,
  learn_extension_id, control_of, request, data_, reject, send_failed, missing_extension_id,
  encoding_failed, decoding_failed, unexpected_request, rejected, no_piece_data, empty_piece,
  no_metadata_size, length_mismatch, invalid_piece_size, no_buffer, offset_overflow, out_of_range,
  io_error, ◌>>=◌, ◌>>◌,
}

module _ (c : Setting) where
  unfoldable pub send : PeerCommand → M (Unit {0})
  send cmd w =
      if c.sends w.sent cmd then (ok tt, record w { sent = cmd ∷ w.sent }) else (err send_failed, w)

  unfoldable pub request_metadata_piece : ℕ → M (Unit {0})
  unfolding send
  request_metadata_piece piece w =
      (do
        metadata_ext_id ← required missing_extension_id w.peer_metadata_id
        payload ←
            required encoding_failed (c.encode_request (record { msg_type = 0; piece = piece }))
        send (PeerCommand.extended metadata_ext_id payload)
        (λ v. (ok tt, record v { requested_pieces = insert piece v.requested_pieces })))
        w

  -- The rounds of the loop, from `piece` on.
  unfoldable pub request_from : ℕ → ℕ → M (Unit {0})
  unfolding request_metadata_piece
  request_from piece zero w = (ok tt, w)
  request_from piece (suc rounds) w =
      let rest = request_from (piece + 1) rounds in
      if contains piece w.requested_pieces
      then rest w
      else bind_result (request_metadata_piece piece w) (λ _. rest)

  unfoldable pub request_missing_pieces : ℕ → M (Unit {0})
  unfolding request_from
  request_missing_pieces count = request_from 0 count

  -- The checks of the sizes of a piece.
  unfoldable pub check_sizes : ℕ → ℕ → Bytes → M (Unit {0})
  check_sizes metadata_size piece_size bytes =
      let last_piece_size = metadata_size % not_last_piece_size in
      do
        ensure (length bytes == piece_size) length_mismatch
        ensure (piece_size == not_last_piece_size || piece_size == last_piece_size)
            invalid_piece_size

  -- What follows the copy of a piece into the buffer.
  unfoldable pub piece_received : ℕ → ℕ → Bytes → M Bool
  unfolding request_missing_pieces expected_piece_count
  piece_received metadata_size piece buf w =
      let received = insert piece w.received_pieces in
      let w' = record w { metadata_bytes = some buf; received_pieces = received } in
      let count = expected_piece_count metadata_size in
      if leb count (length received)
      then (ok true, w')
      else bind_result (request_missing_pieces count w') (λ _. pure false)

  unfoldable pub place_piece : ℕ → ℕ → Bytes → M Bool
  unfolding copy_piece piece_received
  place_piece metadata_size piece bytes w =
      let offset = piece * not_last_piece_size in
      let end = min ((offset + length bytes) % u64_mod) metadata_size in
      (do
        buf ← required no_buffer w.metadata_bytes
        ensure (ltb offset u64_mod) offset_overflow
        ensure (ltb offset metadata_size) out_of_range
        buf' ← of_result (copy_piece buf offset end bytes)
        piece_received metadata_size piece buf')
        w

  -- A message of the type `Data`; `bytes` is what follows its dictionary.
  unfoldable pub handle_data : DataResponsePayloadSerde → Bytes → M Bool
  unfolding check_sizes place_piece
  handle_data response bytes w =
      (do
        ensure (ltb 0 (length bytes)) empty_piece
        metadata_size ← required no_metadata_size w.total_size
        check_sizes metadata_size response.total_size bytes
        place_piece metadata_size response.piece bytes)
        w

  unfoldable pub handle_response : Bytes → DataResponsePayloadSerde → ℕ → M Bool
  unfolding handle_data
  handle_response payload response header_len w =
      if response.msg_type == as_u64 request
      then (err unexpected_request, w)
      else if response.msg_type == as_u64 reject
      then (err rejected, w)
      else if not (response.msg_type == as_u64 data_)
      then (ok false, w)
      else if ltb (length payload) header_len
      then (err no_piece_data, w)
      else handle_data response (drop header_len payload) w

  unfoldable pub handle_metadata_message : Bytes → M Bool
  unfolding handle_response
  handle_metadata_message payload w = elim (c.decode_response payload) [
    | none ↦ (err decoding_failed, w)
    | some decoded ↦ handle_response payload decoded.0 decoded.1 w
  ]

  unfoldable pub on_connect : PeerConnection → M SessionControl
  on_connect conn w = elim conn.peer_id [
    | none ↦ (ok continue, w)
    | some peer_id ↦ (ok continue, record w { peer_id = some peer_id })
  ]

  unfoldable pub send_extension_handshake : M (Unit {0})
  unfolding send
  send_extension_handshake = do
    let extensions = (metadata_extension_name, my_metadata_extension_message_id) ∷ []
    payload ←
        required encoding_failed (Extension.encode c.extension_codec (Extension.new extensions))
    send (PeerCommand.extended 0 payload)
    (λ w. (ok tt, record w { ext_handshake_sent = true }))

  unfoldable pub on_handshake : Bool → M SessionControl
  unfolding send_extension_handshake
  on_handshake extension_supported w =
      if extension_supported && not w.ext_handshake_sent
      then bind_result (send_extension_handshake w) (λ _. pure continue)
      else (ok continue, w)

  -- The size of the metadata is known: the buffer is made, and the first piece asked for.
  unfoldable pub begin_metadata : ℕ → M SessionControl
  unfolding zeroed request_metadata_piece
  begin_metadata metadata_size w =
      bind_result (zeroed metadata_size, record w { total_size = some metadata_size })
        (λ buf. do
          (λ v. (ok tt, record v { metadata_bytes = some buf }))
          request_metadata_piece 0
          pure continue)

  unfoldable pub on_extension_payload : ExtensionHandshakePayload → M SessionControl
  unfolding begin_metadata
  on_extension_payload ext_payload w =
      let w' = learn_extension_id (get_extension_id ext_payload metadata_extension_name) w in
      if w.handshake_only
      then (ok stop, w')
      else bind_result (required no_metadata_size ext_payload.metadata_size w') begin_metadata

  unfoldable pub on_extension_handshake : Bytes → M SessionControl
  unfolding on_extension_payload
  on_extension_handshake payload w =
      bind_result (required decoding_failed (Extension.decode c.extension_codec payload) w)
        on_extension_payload

  unfoldable pub on_metadata : Bytes → M SessionControl
  unfolding handle_metadata_message
  on_metadata payload w =
      bind_result (handle_metadata_message payload w) (λ complete. pure (control_of complete))

  unfoldable pub on_extended : ℕ → Bytes → M SessionControl
  unfolding on_extension_handshake on_metadata
  on_extended ext_id payload w =
      if ext_id == 0
      then on_extension_handshake payload w
      else if ext_id == my_metadata_extension_message_id
      then on_metadata payload w
      else (ok continue, w)

  unfoldable pub on_event : PeerEvent → M SessionControl
  unfolding on_handshake on_extended
  on_event (PeerEvent.handshake_complete peer_id reserved extension_supported) =
      on_handshake extension_supported
  on_event (PeerEvent.extended ext_id payload) = on_extended ext_id payload
  on_event PeerEvent.io_error = fail io_error
  on_event _ = pure continue

  -- `should_stop` is the default of the trait.
  unfoldable pub handler : PeerSessionHandler MetadataError MetadataFetcher
  unfolding on_connect on_event
  handler = record {
    on_connect = on_connect;
    on_event = λ conn. on_event;
    should_stop = λ w. false;
  }
