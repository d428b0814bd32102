-- ===== src/Peer/Message.antt =====
-- src/peer/message.rs: message codes and the handshake request.
use Prim.Native.Nat.{bit_and, bit_or}
use Prim.Native.Char.{code}
use Prim.Native.String.{String}
use codecrafters_bittorrent.Prelude.{
  ℕ, zero, suc, ◌%◌, Bool, not, [], ◌∷◌, ◌++◌, Bytes, length, replicate, Result, ok, err, ltb, ◌==◌,
  if◌then◌else◌,
}

-- The code points of a literal; these are its bytes, since the texts here are ASCII.
abbrev pub codes : String → Bytes
codes String.[] = []
codes (String.◌∷◌ c s) = code c ∷ codes s

pub data PeerMessageType : Type 0 where
  keep_alive choke unchoke interested not_interested have bitfield request piece cancel extended :
      PeerMessageType

-- `t as u8`; the discriminant -1 of `KeepAlive` becomes 255.
unfoldable pub as_u8 : PeerMessageType → ℕ
as_u8 keep_alive = 255
as_u8 choke = 0
as_u8 unchoke = 1
as_u8 interested = 2
as_u8 not_interested = 3
as_u8 have = 4
as_u8 bitfield = 5
as_u8 request = 6
as_u8 piece = 7
as_u8 cancel = 8
as_u8 extended = 20

pub record HandshakeRequest : Type 0 where
  pub pstr : Bytes
  pub reserved : Bytes
  pub info_hash : Bytes
  pub peer_id : Bytes

abbrev pub protocol : Bytes
protocol = codes "BitTorrent protocol"

-- Byte `i` of an array; `i` is in range at each use.
abbrev pub byte_at : Bytes → ℕ → ℕ
byte_at [] i = 0
byte_at (b ∷ bs) zero = b
byte_at (b ∷ bs) (suc i) = byte_at bs i

abbrev pub set_byte : Bytes → ℕ → ℕ → Bytes
set_byte [] i v = []
set_byte (b ∷ bs) zero v = v ∷ bs
set_byte (b ∷ bs) (suc i) v = b ∷ set_byte bs i v

unfoldable pub get_reserved_extension_support_bytes : Bytes
get_reserved_extension_support_bytes =
    let reserved = replicate 8 0 in set_byte reserved 5 (bit_or (byte_at reserved 5) 0b0001_0000)

unfoldable pub has_extension_support : Bytes → Bool
has_extension_support reserved = not (bit_and (byte_at reserved 5) 0b0001_0000 == 0)

unfoldable pub new : Bytes → Bytes → HandshakeRequest
new info_hash peer_id = record {
  pstr = protocol;
  reserved = replicate 8 0;
  info_hash = info_hash;
  peer_id = peer_id;
}

unfoldable pub new_with_extension_support : Bytes → Bytes → HandshakeRequest
unfolding get_reserved_extension_support_bytes
new_with_extension_support info_hash peer_id = record {
  pstr = protocol;
  reserved = get_reserved_extension_support_bytes;
  info_hash = info_hash;
  peer_id = peer_id;
}

pub data HandshakeError : Type 0 where
  pstr_too_long info_hash_length peer_id_length : HandshakeError

unfoldable pub as_bytes : HandshakeRequest → Result HandshakeError Bytes
as_bytes r =
    if ltb 255 (length r.pstr)
    then err pstr_too_long
    else if not (length r.info_hash == 20)
    then err info_hash_length
    else if not (length r.peer_id == 20)
    then err peer_id_length
    else ok (length r.pstr % 256 ∷ (r.pstr ++ (r.reserved ++ (r.info_hash ++ r.peer_id))))
