-- ===== src/Torrent/Metainfo.antt =====
-- src/torrent/metainfo.rs: what the client keeps of a torrent file or of an info dictionary. Bencode
-- decoding and encoding are serde_bencode's, hashing sha1's and hexadecimal hex's: parameters.
pub mod Hashes
use codecrafters_bittorrent.Prelude.{
  ℕ, zero, suc, ◌&&◌, ◌+◌, ◌-◌, ◌*◌, ◌/◌, ◌%◌, ◌^◌, List, [], ◌∷◌, Bytes, length, take, drop, map,
  Option, none, some, Result, ok, err, leb, if◌then◌else◌,
}
use codecrafters_bittorrent.Utils.RawBytes.{Text}

pub record TorrentMetainfo : Type 0 where
  pub announce : Text
  pub piece_length : ℕ
  pub pieces : Bytes
  pub length : ℕ
  pub info_hash : Bytes

pub record FileEntry : Type 0 where
  pub length : ℕ
  pub path : List Text

pub record InfoDictionary : Type 0 where
  pub piece_length : ℕ
  pub pieces : Bytes
  pub length : Option ℕ
  pub files : Option (List FileEntry)
  pub name : Option Text

pub record TorrentMetainfoSerde : Type 0 where
  pub announce : Text
  pub info : InfoDictionary

-- A panic: of an `expect`, or of a slice out of range.
pub data Panic : Type 0 where
  panicked : Panic

-- `sum` over `u64`, which wraps.
unfoldable pub sum_lengths : List FileEntry → ℕ
sum_lengths [] = 0
sum_lengths (f ∷ fs) = (f.length + sum_lengths fs) % 2 ^ 64

unfoldable pub total_length : InfoDictionary → ℕ
unfolding sum_lengths
total_length info = elim info.length [
  | some n ↦ n
  | none ↦ elim info.files [ some fs ↦ sum_lengths fs | none ↦ 0 ]
]

-- What the crates do for this module.
pub record Codec : Type 0 where
  pub decode_torrent : Bytes → Option TorrentMetainfoSerde
  pub encode_torrent : TorrentMetainfoSerde → Option Bytes
  pub decode_info : Bytes → Option InfoDictionary
  pub encode_info : InfoDictionary → Option Bytes
  pub sha1 : Bytes → Bytes
  pub hex : Bytes → Text

module _ (c : Codec) where
  unfoldable pub from_bytes : Bytes → Result Panic TorrentMetainfo
  from_bytes bytes = elim (c.decode_torrent bytes) [
    | none ↦ err panicked
    | some parsed ↦ elim (c.encode_info parsed.info) [
      | none ↦ err panicked
      | some info_hash_bytes ↦ ok (record {
        announce = parsed.announce;
        piece_length = parsed.info.piece_length;
        pieces = parsed.info.pieces;
        length = total_length parsed.info;
        info_hash = c.sha1 info_hash_bytes;
      })
    ]
  ]

  unfoldable pub from_info_bytes : Text → Bytes → Result Panic TorrentMetainfo
  from_info_bytes announce info_bytes = elim (c.decode_info info_bytes) [
    | none ↦ err panicked
    | some info_dict ↦ ok (record {
      announce = announce;
      piece_length = info_dict.piece_length;
      pieces = info_dict.pieces;
      length = total_length info_dict;
      info_hash = c.sha1 info_bytes;
    })
  ]

  -- `none` is the error of the encoder.
  unfoldable pub to_bytes : TorrentMetainfo → Option Bytes
  to_bytes m = c.encode_torrent (record {
    announce = m.announce;
    info = record {
      piece_length = m.piece_length;
      pieces = m.pieces;
      length = some m.length;
      files = none;
      name = none;
    };
  })

  unfoldable pub get_info_hash_hex : TorrentMetainfo → Text
  get_info_hash_hex m = c.hex m.info_hash

-- `chunks(n)`: pieces of `n`, the last one shorter where they do not come out even.
unfoldable pub chunks {ℓ} : {A : Type ℓ} → ℕ → ℕ → List A → List (List A)
chunks zero n xs = []
chunks (suc fuel) n [] = []
chunks (suc fuel) n (x ∷ xs) = take n (x ∷ xs) ∷ chunks fuel n (drop n (x ∷ xs))

unfoldable pub get_piece_hashes : Codec → TorrentMetainfo → List Text
unfolding chunks
get_piece_hashes c m = map c.hex (chunks (length m.pieces) 20 m.pieces)

unfoldable pub get_piece_count : TorrentMetainfo → ℕ
get_piece_count m = length m.pieces / 20

-- The bounds of the slice are of 64 bits, and wrap.
unfoldable pub get_piece_hash_bytes : TorrentMetainfo → ℕ → Result Panic Bytes
get_piece_hash_bytes m index =
    let start = (index * 20) % 2 ^ 64 in
    let end = (start + 20) % 2 ^ 64 in
    if leb start end && leb end (length m.pieces)
    then ok (take (end - start) (drop start m.pieces))
    else err panicked
