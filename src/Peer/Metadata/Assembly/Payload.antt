-- ===== src/Peer/Metadata/Assembly/Payload.antt =====
-- The checks of src/peer/metadata.rs on a piece of the metadata, and its copy into the buffer.
use codecrafters_bittorrent.Prelude.{
  ℕ, ◌+◌, ◌-◌, ◌*◌, ◌/◌, ◌%◌, ◌^◌, min, ◌≤◌, ◌<◌, ◌≡◌, refl, ap, ◌∙◌, Bool, true, false, ◌||◌, ◌⊎◌,
  ◌≢◌, ltb→lt, inl, inr, arith, Bytes, length, get_elem?, some, ok, ◌==◌, ltb, Bool-cases, le→ltb,
  lt→ltb,
}
use codecrafters_bittorrent.Peer.Metadata.Fetcher.{
  Setting, MetadataFetcher, not_last_piece_size, u64_mod,
}
use codecrafters_bittorrent.Peer.Metadata.{
  check_sizes, piece_received, place_piece, handle_data, handle_response, handle_metadata_message,
}
use codecrafters_bittorrent.Peer.Metadata.Buffer.{CopyOf, copy_piece-CopyOf}
use codecrafters_bittorrent.Peer.Metadata.Assembly.{
  block, mark, Honest, length-block, get_elem?-block,
}

check_sizes_lem :
    (c : Setting) (size n : ℕ) (bytes : Bytes) (f : MetadataFetcher)
    → length bytes ≡ n
    → (n ≡ not_last_piece_size) ⊎ (n ≡ size % not_last_piece_size)
    → check_sizes c size n bytes f ≡ (ok tt, f)
unfolding check_sizes
check_sizes_lem c size n bytes f same valid =
    let b : (length bytes == n) ≡ true = ground arith in
    let v : (n == not_last_piece_size || n == size % not_last_piece_size) ≡ true = ground arith in
    rw (b, v) refl

pub handle_data_lem :
    (c : Setting) (size p n : ℕ) (bytes : Bytes) (f : MetadataFetcher)
    → f.total_size ≡ some size
    → length bytes ≡ n
    → 0 < n
    → (n ≡ not_last_piece_size) ⊎ (n ≡ size % not_last_piece_size)
    → handle_data c (record { msg_type = 1; piece = p; total_size = n }) bytes f
      ≡ place_piece c size p bytes f
unfolding handle_data
handle_data_lem c size p n bytes f known same pos valid =
    let b : ltb 0 (length bytes) ≡ true = ground arith in
    simp (b, known, check_sizes_lem c size n bytes f same valid)

pub place_piece_lem :
    (c : Setting) (size p : ℕ) (bytes buffer : Bytes) (f : MetadataFetcher)
    → f.metadata_bytes ≡ some buffer
    → length buffer ≡ size
    → size < 2 ^ 63
    → p * not_last_piece_size + length bytes ≤ size
    → 0 < length bytes
    → (new : Bytes) × (place_piece c size p bytes f ≡ piece_received c size p new f)
      × CopyOf buffer bytes (p * not_last_piece_size) (p * not_last_piece_size + length bytes) new
unfolding place_piece
place_piece_lem c size p bytes buffer f in_buffer full small fits some_byte =
    let offset = p * not_last_piece_size in
    let end : min ((offset + length bytes) % u64_mod) size ≡ offset + length bytes = omega arith in
    let a : ltb offset u64_mod ≡ true = lt→ltb _ _ (omega arith) in
    let b : ltb offset size ≡ true = lt→ltb _ _ (omega arith) in
    let (new, k, copy) =
      copy_piece-CopyOf buffer bytes offset (offset + length bytes) (omega arith) (omega arith)
        (omega arith) in
    (new, simp (in_buffer, a, b, end, k), copy)

-- A message that carries a piece.
pub payload_handled :
    (c : Setting) (metadata : Bytes) (p : ℕ) (payload : Bytes) (f : MetadataFetcher)
    (m : Honest c metadata p payload)
    → handle_metadata_message c payload f
      ≡ handle_data c
          (record { msg_type = 1; piece = p; total_size = length (block metadata p) })
          (block metadata p)
          f
unfolding handle_metadata_message handle_response
payload_handled c metadata p payload f m =
    let b : ltb (length payload) m.header_len ≡ false = le→ltb _ _ m.header_fits in
    rw (m.decoded, handle_metadata_message, b, m.rest) refl

pub block_size :
    (metadata : Bytes) (p : ℕ)
    → p * not_last_piece_size < length metadata
    → (p * not_last_piece_size + length (block metadata p) ≤ length metadata)
      × (0 < length (block metadata p))
block_size metadata p h =
    (omega (arith, length-block metadata p), omega (arith, length-block metadata p))

pub block_valid :
    (metadata : Bytes) (p : ℕ)
    → p * not_last_piece_size < length metadata
    → (length (block metadata p) ≡ not_last_piece_size)
      ⊎ (length (block metadata p) ≡ length metadata % not_last_piece_size)
block_valid metadata p h =
    elim (Bool-cases (ltb (length metadata) (p * not_last_piece_size + not_last_piece_size))) [
      | inl b ↦ let short = ltb→lt _ _ b in inr (omega (arith, length-block metadata p))
      | inr b ↦
          let long : p * not_last_piece_size + not_last_piece_size ≤ length metadata =
            ground arith in
          inl (omega (arith, length-block metadata p))
    ]

-- The new buffer agrees with the metadata wherever a piece has arrived.
pub new_placed :
    (metadata : Bytes) (p : ℕ) (has : ℕ → Bool) (buffer new : Bytes)
    → p * not_last_piece_size < length metadata
    → CopyOf buffer
        (block metadata p)
        (p * not_last_piece_size)
        (p * not_last_piece_size + length (block metadata p))
        new
    → ((i : ℕ)
        → i < length metadata
        → has (i / not_last_piece_size) ≡ true
        → get_elem? buffer i ≡ get_elem? metadata i)
    → (i : ℕ) → i < length metadata
    → mark p has (i / not_last_piece_size) ≡ true
    → get_elem? new i ≡ get_elem? metadata i
new_placed metadata p has buffer new inside copy old i below there =
    let offset = p * not_last_piece_size in
    elim (Bool-cases (ltb i offset)) [
      | inl b ↦
          let early : i < offset = ltb→lt _ _ b in
          copy.before_kept i early ∙ old i below (other (omega arith))
      | inr b ↦ elim (Bool-cases (ltb i (offset + length (block metadata p)))) [
        | inl b' ↦
            let from : offset ≤ i = ground arith in
            let to : i < offset + length (block metadata p) = ltb→lt _ _ b' in
            let back : offset + (i - offset) ≡ i = omega arith in
            copy.inside_kept i from to
            ∙ get_elem?-block metadata p (i - offset) (omega (arith, length-block metadata p))
            ∙ ap (get_elem? metadata) back
        | inr b' ↦
            let late : offset + length (block metadata p) ≤ i = ground arith in
            copy.behind_kept i late ∙ old i below (other (omega (arith, length-block metadata p)))
      ]
    ]
  where
    other : (i / not_last_piece_size) ≢ p → has (i / not_last_piece_size) ≡ true
    other ne = ground arith

-- The fetcher with a piece placed.
