-- ===== src/Peer/Connection.antt =====
-- src/peer/connection.rs: events and commands, the codec of the wire, the handshake and the state that
-- the reader thread keeps. The TCP stream is the bytes that will arrive on it; `read_exact` fails when
-- they run out.
pub mod Codec
pub mod Decode
pub mod Handshake
pub mod Reader
use codecrafters_bittorrent.Prelude.{
  ℕ, ◌+◌, ◌-◌, ◌%◌, ◌≡◌, Bool, true, false, [], ◌∷◌, ◌++◌, Bytes, length, take, drop, get_elem?,
  Option, none, some, Result, ok, err, ◌>>=◌, leb, ltb, ◌==◌, if◌then◌else◌,
}
use codecrafters_bittorrent.Peer.Message.{as_u8, PeerMessageType}
use codecrafters_bittorrent.Utils.Words.{u32_mod, to_be_bytes, from_be_bytes}

pub data PeerEvent : Type 0 where
  handshake_complete : Option Bytes → Bytes → Bool → PeerEvent
  keep_alive choke unchoke interested not_interested : PeerEvent
  have : ℕ → PeerEvent
  bitfield : Bytes → PeerEvent
  request : ℕ → ℕ → ℕ → PeerEvent
  piece : ℕ → ℕ → Bytes → PeerEvent
  cancel : ℕ → ℕ → ℕ → PeerEvent
  extended : ℕ → Bytes → PeerEvent
  unknown : ℕ → Bytes → PeerEvent
  io_error : PeerEvent

pub data PeerCommand : Type 0 where
  keep_alive interested not_interested : PeerCommand
  request : ℕ → ℕ → ℕ → PeerCommand
  cancel : ℕ → ℕ → ℕ → PeerCommand
  extended : ℕ → Bytes → PeerCommand

-- `io` is an error of the stream; `panicked` is an index out of the range of a slice, which ends the
-- thread that reads.
pub data ReadError : Type 0 where
  io panicked : ReadError

unfoldable pub read_exact : ℕ → Bytes → Result ReadError (Bytes × Bytes)
read_exact n s = if leb n (length s) then ok (take n s, drop n s) else err io

-- `u32::from_be_bytes` over four bytes.
unfoldable pub word : Bytes → Result ReadError ℕ
word (a ∷ b ∷ c ∷ d ∷ []) = ok (from_be_bytes a b c d)
word _ = err panicked

-- `payload[k..k + 4]` as a number; the slice panics where the payload is shorter.
unfoldable pub word_at : ℕ → Bytes → Result ReadError ℕ
unfolding word
word_at k payload =
    if leb (k + 4) (length payload) then word (take 4 (drop k payload)) else err panicked

unfoldable pub three_words : (ℕ → ℕ → ℕ → PeerEvent) → Bytes → Result ReadError PeerEvent
unfolding word_at
three_words event payload = do
  index ← word_at 0 payload
  begin ← word_at 4 payload
  size ← word_at 8 payload
  ok (event index begin size)

-- The first byte is the extension's id, 0 if there is none.
unfoldable pub split_extended : Bytes → PeerEvent
split_extended [] = extended 0 []
split_extended (ext_id ∷ payload) = extended ext_id payload

-- The `match message_id` of `read_one_message`.
unfoldable pub decode : ℕ → Bytes → Result ReadError PeerEvent
unfolding three_words split_extended
decode id payload =
    if id == 0
    then ok choke
    else if id == 1
    then ok unchoke
    else if id == 2
    then ok interested
    else if id == 3
    then ok not_interested
    else if id == 4
    then (do idx ← word_at 0 payload; ok (have idx))
    else if id == 5
    then ok (bitfield payload)
    else if id == 6
    then three_words request payload
    else if id == 7
    then (do
      index ← word_at 0 payload
      begin ← word_at 4 payload
      ok (piece index begin (drop 8 payload)))
    else if id == 8
    then three_words cancel payload
    else if id == 20
    then ok (split_extended payload)
    else ok (unknown id payload)

-- The byte of an array of one.
abbrev first_byte : Bytes → ℕ
first_byte [] = 0
first_byte (b ∷ _) = b

-- The event and the bytes left on the stream.
unfoldable pub read_body : ℕ → Bytes → Result ReadError (PeerEvent × Bytes)
unfolding read_exact
read_body size s = if size == 0 then ok (keep_alive, s) else (do
  (message_id_buf, s₁) ← read_exact 1 s
  (payload_buf, s₂) ← read_exact (size - 1) s₁
  evt ← decode (first_byte message_id_buf) payload_buf
  ok (evt, s₂))

unfoldable pub read_one_message : Bytes → Result ReadError (PeerEvent × Bytes)
unfolding read_exact word
read_one_message s = do (length_buf, s₁) ← read_exact 4 s; size ← word length_buf; read_body size s₁

-- The bytes that `write_one_message` writes.
unfoldable pub write_one_message : PeerCommand → Bytes
write_one_message keep_alive = to_be_bytes 0
write_one_message interested = to_be_bytes 1 ++ as_u8 PeerMessageType.interested ∷ []
write_one_message not_interested = to_be_bytes 1 ++ as_u8 PeerMessageType.not_interested ∷ []
write_one_message (request index begin size) =
    to_be_bytes 13
    ++ as_u8 PeerMessageType.request
      ∷ (to_be_bytes index ++ (to_be_bytes begin ++ to_be_bytes size))
write_one_message (cancel index begin size) =
    to_be_bytes 13
    ++ as_u8 PeerMessageType.cancel ∷ (to_be_bytes index ++ (to_be_bytes begin ++ to_be_bytes size))
write_one_message (extended ext_id payload) =
    to_be_bytes ((2 + length payload % u32_mod) % u32_mod)
    ++ as_u8 PeerMessageType.extended ∷ ext_id ∷ payload
