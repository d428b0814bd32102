-- ===== src/Peer/Metadata/Fetcher.antt =====
-- The state of the fetcher of src/peer/metadata.rs and its data: the monad of its steps, which stop at an
-- error, and the arithmetic of its buffer.
use codecrafters_bittorrent.Prelude.{
  ℕ, ◌+◌, ◌-◌, ◌*◌, ◌/◌, ◌%◌, ◌^◌, Bool, true, false, ◌&&◌, ◌||◌, List, [], ◌∷◌, ◌++◌, Bytes,
  length, take, drop, replicate, Option, none, some, Result, ok, err, leb, ◌==◌, if◌then◌else◌,
}
use codecrafters_bittorrent.Utils.RawBytes.{Text}
use codecrafters_bittorrent.Peer.Message.{codes}
use codecrafters_bittorrent.Peer.Connection.{PeerCommand}
use codecrafters_bittorrent.Peer.Extension.{SerdeBencode}
use codecrafters_bittorrent.Peer.Session.{SessionControl, continue, stop}

abbrev pub metadata_extension_name : Text
metadata_extension_name = codes "ut_metadata"

abbrev pub my_metadata_extension_message_id : ℕ
my_metadata_extension_message_id = 42

abbrev pub u64_mod : ℕ
u64_mod = 2 ^ 64

abbrev pub not_last_piece_size : ℕ
not_last_piece_size = 16 * 1024

pub data MetadataMessageType : Type 0 where
  request data_ reject : MetadataMessageType

abbrev pub as_u64 : MetadataMessageType → ℕ
as_u64 request = 0
as_u64 data_ = 1
as_u64 reject = 2

pub record PieceRequestPayloadSerde : Type 0 where
  pub msg_type : ℕ
  pub piece : ℕ

pub record DataResponsePayloadSerde : Type 0 where
  pub msg_type : ℕ
  pub piece : ℕ
  pub total_size : ℕ

-- What the fetcher does not implement.
pub record Setting : Type 0 where
  pub extension_codec : SerdeBencode
  pub encode_request : PieceRequestPayloadSerde → Option Bytes
  -- the dictionary at the start of the payload, and the position behind it
  pub decode_response : Bytes → Option (DataResponsePayloadSerde × ℕ)
  -- by what was sent before, and the command
  pub sends : List PeerCommand → PeerCommand → Bool

-- What changes, `sent` included, the commands that were sent, latest first. A `HashSet` is a list without
-- repetition.
pub record MetadataFetcher : Type 0 where
  pub ext_handshake_sent : Bool
  pub metadata_bytes : Option Bytes
  pub total_size : Option ℕ
  pub requested_pieces : List ℕ
  pub received_pieces : List ℕ
  pub peer_metadata_id : Option ℕ
  pub peer_id : Option Bytes
  pub handshake_only : Bool
  pub sent : List PeerCommand

pub data MetadataError : Type 0 where
  send_failed missing_extension_id encoding_failed decoding_failed : MetadataError
  unexpected_request rejected no_piece_data empty_piece no_metadata_size : MetadataError
  length_mismatch invalid_piece_size no_buffer offset_overflow out_of_range : MetadataError
  io_error panicked : MetadataError

abbrev pub M : Type 0 → Type 0
M A = MetadataFetcher → Result MetadataError A × MetadataFetcher

abbrev pub bind_result :
    {A B : Type 0}
    → Result MetadataError A × MetadataFetcher
    → (A → M B)
    → Result MetadataError B × MetadataFetcher
bind_result (ok a, w) f = f a w
bind_result (err e, w) f = (err e, w)

infixl 5 ◌>>=◌ ◌>>◌
abbrev pub ◌>>=◌ : {A B : Type 0} → M A → (A → M B) → M B
◌>>=◌ m f w = bind_result (m w) f

abbrev pub ◌>>◌ : {B : Type 0} → M (Unit {0}) → M B → M B
m >> k = m >>= λ _. k

abbrev pub pure : {A : Type 0} → A → M A
pure a w = (ok a, w)

abbrev pub fail : {A : Type 0} → MetadataError → M A
fail e w = (err e, w)

-- `context`: a value that must be there.
abbrev pub required : {A : Type 0} → MetadataError → Option A → M A
required e none w = (err e, w)
required e (some a) w = (ok a, w)

abbrev pub ensure : Bool → MetadataError → M (Unit {0})
ensure b e w = if b then (ok tt, w) else (err e, w)

unfoldable pub contains : ℕ → List ℕ → Bool
contains a [] = false
contains a (x ∷ xs) = a == x || contains a xs

unfoldable pub insert : ℕ → List ℕ → List ℕ
unfolding contains
insert a xs = if contains a xs then xs else a ∷ xs

-- `vec![0u8; n]`, which panics where the bytes pass `isize::MAX`.
unfoldable pub zeroed : ℕ → Result MetadataError Bytes
zeroed n = if leb (2 ^ 63) n then err panicked else ok (replicate n 0)

-- `buf[offset..end].copy_from_slice(&data[..end - offset])`, which panics out of range.
unfoldable pub copy_piece : Bytes → ℕ → ℕ → Bytes → Result MetadataError Bytes
copy_piece buf offset end bytes =
    if leb offset end && leb end (length buf) && leb (end - offset) (length bytes)
    then ok (take offset buf ++ (take (end - offset) bytes ++ drop end buf))
    else err panicked

abbrev pub of_result : {A : Type 0} → Result MetadataError A → M A
of_result r w = (r, w)

unfoldable pub expected_piece_count : ℕ → ℕ
expected_piece_count metadata_size =
    ((metadata_size + not_last_piece_size + u64_mod - 1) % u64_mod) / not_last_piece_size

abbrev pub learn_extension_id : Option ℕ → MetadataFetcher → MetadataFetcher
learn_extension_id none w = w
learn_extension_id (some id) w = record w { peer_metadata_id = some id }

abbrev pub control_of : Bool → SessionControl
control_of true = stop
control_of false = continue
