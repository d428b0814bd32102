-- ===== src/Peer/Metadata/Assembly.antt =====
-- The buffer of src/peer/metadata.rs, and the specification that it refines: the set of the pieces that
-- have arrived, which is complete when each piece of the metadata has.
pub mod Payload
pub mod Step
pub mod Delivery
use codecrafters_bittorrent.Prelude.{
  ℕ, zero, suc, ◌+◌, ◌-◌, ◌*◌, ◌/◌, ◌%◌, ◌^◌, min, ◌≤◌, ◌<◌, ◌≡◌, refl, sym, ap, ◌∙◌, Bool, true,
  false, ◌||◌, arith, Bytes, length, take, drop, get_elem?, Option, none, some, length-take,
  length-drop, Result, ok, err, All, ◌==◌, if◌then◌else◌, Bool-cases, Option-cases, inl, inr,
}
use codecrafters_bittorrent.Peer.Metadata.Fetcher.{
  Setting, MetadataFetcher, not_last_piece_size, expected_piece_count, contains, bind_result,
}
use codecrafters_bittorrent.Peer.Metadata.{
  request_metadata_piece, request_from, request_missing_pieces,
}
use codecrafters_bittorrent.Peer.Metadata.Buffer.{get_elem?-take, get_elem?-drop}
use codecrafters_bittorrent.Peer.Metadata.Sets.{NoRepeat}

-- The bytes of a piece.
unfoldable pub block : Bytes → ℕ → Bytes
block metadata p = take not_last_piece_size (drop (p * not_last_piece_size) metadata)

-- The specification's step.
abbrev pub mark : ℕ → (ℕ → Bool) → ℕ → Bool
mark p has q = q == p || has q

abbrev pub piece_count : Bytes → ℕ
piece_count metadata = (length metadata + 16383) / not_last_piece_size

-- The fetcher holds the pieces of the metadata that `has` names, at their places.
pub record Refines (metadata : Bytes) (has : ℕ → Bool) (f : MetadataFetcher) : Type 0 where
  pub size_known : f.total_size ≡ some (length metadata)
  pub buffer : Bytes
  pub in_buffer : f.metadata_bytes ≡ some buffer
  pub length_kept : length buffer ≡ length metadata
  pub placed :
      (i : ℕ)
      → i < length metadata
      → has (i / not_last_piece_size) ≡ true
      → get_elem? buffer i ≡ get_elem? metadata i
  pub received : (q : ℕ) → contains q f.received_pieces ≡ has q
  pub no_repeat : NoRepeat f.received_pieces
  pub below : All (λ q. q < piece_count metadata) f.received_pieces

-- A message with a piece of the metadata, whose `total_size` is the length of the piece.
pub record Honest (c : Setting) (metadata : Bytes) (p : ℕ) (payload : Bytes) : Type 0 where
  pub header_len : ℕ
  pub decoded :
      c.decode_response payload
      ≡ some
          (record { msg_type = 1; piece = p; total_size = length (block metadata p) }, header_len)
  pub header_fits : header_len ≤ length payload
  pub rest : drop header_len payload ≡ block metadata p
  pub inside : p * not_last_piece_size < length metadata

pub expected_piece_count-eq :
    (metadata : Bytes)
    → length metadata < 2 ^ 63
    → expected_piece_count (length metadata) ≡ piece_count metadata
unfolding expected_piece_count
expected_piece_count-eq metadata h = omega arith

pub length-block :
    (metadata : Bytes) (p : ℕ)
    → length (block metadata p)
      ≡ min not_last_piece_size (length metadata - p * not_last_piece_size)
unfolding block
length-block metadata p = omega (
  arith,
  length-take not_last_piece_size (drop (p * not_last_piece_size) metadata),
  length-drop (p * not_last_piece_size) metadata,
)

pub get_elem?-block :
    (metadata : Bytes) (p i : ℕ)
    → i < not_last_piece_size
    → get_elem? (block metadata p) i ≡ get_elem? metadata (p * not_last_piece_size + i)
unfolding block
get_elem?-block metadata p i h =
    get_elem?-take not_last_piece_size (drop (p * not_last_piece_size) metadata) i h
    ∙ get_elem?-drop (p * not_last_piece_size) metadata i
