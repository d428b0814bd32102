-- ===== src/Peer/Metadata/Assembly/Step.antt =====
-- One message of src/peer/metadata.rs that carries a piece of the metadata.
use codecrafters_bittorrent.Prelude.{
  ℕ, ◌+◌, ◌*◌, ◌/◌, ◌^◌, ◌≤◌, ◌<◌, ◌≡◌, refl, sym, ap, ◌∙◌, Bool, true, List, false, ◌||◌, ◌≢◌,
  ltb→lt, ◌↔◌, inl, inr, arith, Bytes, length, get_elem?, some, Result, ok, err, ◌==◌, leb, ltb,
  Bool-cases,
}
use codecrafters_bittorrent.Peer.Connection.{PeerCommand}
use codecrafters_bittorrent.Peer.Metadata.Fetcher.{
  Setting, MetadataFetcher, MetadataError, not_last_piece_size, insert, bind_result,
}
use codecrafters_bittorrent.Peer.Metadata.{
  request_missing_pieces, request_from, piece_received, handle_metadata_message,
}
use codecrafters_bittorrent.Peer.Metadata.Buffer.{CopyOf, get_elem?_past, eq_of_get_elem?}
use codecrafters_bittorrent.Peer.Metadata.Sets.{
  contains-insert, insert-NoRepeat, insert-All, contains_full, length-ge,
}
use codecrafters_bittorrent.Peer.Metadata.Requests.{request_from-keeps}
use codecrafters_bittorrent.Peer.Metadata.Assembly.{
  block, mark, piece_count, Refines, Honest, expected_piece_count-eq,
}
use codecrafters_bittorrent.Peer.Metadata.Assembly.Payload.{
  handle_data_lem, place_piece_lem, payload_handled, block_size, block_valid, new_placed,
}

abbrev pub placed_in : ℕ → Bytes → MetadataFetcher → MetadataFetcher
placed_in p buf f = record f {
  metadata_bytes = some buf;
  received_pieces = insert p f.received_pieces;
}

placed_in-Refines :
    (metadata : Bytes) (p : ℕ) (has : ℕ → Bool) (f : MetadataFetcher) (new : Bytes)
    (h : Refines metadata has f)
    → p * not_last_piece_size < length metadata
    → CopyOf h.buffer
        (block metadata p)
        (p * not_last_piece_size)
        (p * not_last_piece_size + length (block metadata p))
        new
    → Refines metadata (mark p has) (placed_in p new f)
placed_in-Refines metadata p has f new h inside copy = record {
  size_known = h.size_known;
  buffer = new;
  in_buffer = refl;
  length_kept = copy.length_same ∙ h.length_kept;
  placed = new_placed metadata p has h.buffer new inside copy h.placed;
  received = λ q. contains-insert q p f.received_pieces ∙ ap (λ b. q == p || b) (h.received q);
  no_repeat = insert-NoRepeat p f.received_pieces h.no_repeat;
  below = insert-All _ p f.received_pieces (omega arith) h.below;
}

-- All pieces have arrived: the buffer is the metadata.
pub complete_buffer :
    (metadata : Bytes) (has : ℕ → Bool) (f : MetadataFetcher)
    → Refines metadata has f
    → ((q : ℕ) → q < piece_count metadata → has q ≡ true)
    → f.metadata_bytes ≡ some metadata
complete_buffer metadata has f h all =
    h.in_buffer ∙ ap some (eq_of_get_elem? h.buffer metadata same)
  where
    inside : (i : ℕ) → i < length metadata → get_elem? h.buffer i ≡ get_elem? metadata i
    inside i below = h.placed i below (all (i / not_last_piece_size) (omega arith))

    same : (i : ℕ) → get_elem? h.buffer i ≡ get_elem? metadata i
    same i = elim (Bool-cases (ltb i (length metadata))) [
      | inl b ↦ inside i (ltb→lt _ _ b)
      | inr b ↦
          let past : length metadata ≤ i = ground arith in
          get_elem?_past h.buffer i (rw h.length_kept past) ∙ sym (get_elem?_past metadata i past)
    ]

-- The test of the code and the specification's.
complete_iff :
    (metadata : Bytes) (has : ℕ → Bool) (f : MetadataFetcher)
    → Refines metadata has f
    → (piece_count metadata ≤ length f.received_pieces)
      ↔ ((q : ℕ) → q < piece_count metadata → has q ≡ true)
complete_iff metadata has f h = (
  λ full q below.
      sym (h.received q)
      ∙ contains_full (piece_count metadata) f.received_pieces h.no_repeat h.below full q below,
  λ all. length-ge (piece_count metadata) f.received_pieces (λ q below. h.received q ∙ all q below),
)

-- What a message comes to: complete, or with the requests for what is missing.
record Handled (metadata : Bytes) (has : ℕ → Bool) (r : Result MetadataError Bool × MetadataFetcher)
    : Type 0 where
  refines : Refines metadata has r.1
  reports : (r.0 ≡ ok true) ↔ ((q : ℕ) → q < piece_count metadata → has q ≡ true)

incomplete :
    (r : Result MetadataError (Unit {0}) × MetadataFetcher)
    → (bind_result r (λ u w. (ok false, w))).0 ≢ ok true
incomplete (ok u, w) e = cc
incomplete (err x, w) e = cc

incomplete_state :
    (r : Result MetadataError (Unit {0}) × MetadataFetcher)
    → (bind_result {B = Bool} r (λ u w. (ok false, w))).1 ≡ r.1
incomplete_state (ok u, w) = refl
incomplete_state (err x, w) = refl

Refines-requested :
    (metadata : Bytes) (has : ℕ → Bool) (f : MetadataFetcher)
    → Refines metadata has f
    → (sent : List PeerCommand) (pieces : List ℕ)
    → Refines metadata has (record f { sent = sent; requested_pieces = pieces })
Refines-requested metadata has f h sent pieces = record {
  size_known = h.size_known;
  buffer = h.buffer;
  in_buffer = h.in_buffer;
  length_kept = h.length_kept;
  placed = h.placed;
  received = h.received;
  no_repeat = h.no_repeat;
  below = h.below;
}

piece_received-Handled :
    (c : Setting) (metadata : Bytes) (p : ℕ) (has : ℕ → Bool) (new : Bytes) (f : MetadataFetcher)
    → length metadata < 2 ^ 63
    → Refines metadata has (placed_in p new f)
    → Handled metadata has (piece_received c (length metadata) p new f)
unfolding piece_received request_missing_pieces
piece_received-Handled c metadata p has new f small h =
    let received = insert p f.received_pieces in
    let count = expected_piece_count-eq metadata small in
    let test = complete_iff metadata has (placed_in p new f) h in
    elim (Bool-cases (leb (piece_count metadata) (length received))) [
      | inl b ↦
          rw (count, b) (record { refines = h; reports = (λ _. test.0 (ground arith), λ _. refl) })
      | inr b ↦
          let rest =
            request_from-keeps c (Refines metadata has) (Refines-requested metadata has) 0
              (piece_count metadata) (placed_in p new f) h in
          let r = request_from c 0 (piece_count metadata) (placed_in p new f) in
          rw (count, b)
            (record {
              refines = rw (incomplete_state r) rest;
              reports = (
                λ e. absurd (incomplete r e),
                λ all. let full = test.1 all in absurd (ground arith),
              );
            })
    ]

-- What the message comes to when its checks are passed.
pub payload_placed :
    (c : Setting) (metadata : Bytes) (p : ℕ) (payload : Bytes) (has : ℕ → Bool)
    (f : MetadataFetcher)
    → length metadata < 2 ^ 63
    → Honest c metadata p payload
    → Refines metadata has f
    → (new : Bytes) × (handle_metadata_message c payload f
        ≡ piece_received c (length metadata) p new f)
      × Refines metadata (mark p has) (placed_in p new f)
payload_placed c metadata p payload has f small m h =
    let (fits, some_byte) = block_size metadata p m.inside in
    let (new, placed, copy) =
      place_piece_lem c (length metadata) p (block metadata p) h.buffer f h.in_buffer h.length_kept
        small fits some_byte in
    let e =
      payload_handled c metadata p payload f m
      ∙ handle_data_lem c (length metadata) p (length (block metadata p)) (block metadata p) f
          h.size_known refl some_byte (block_valid metadata p m.inside)
      ∙ placed in
    (new, e, placed_in-Refines metadata p has f new h m.inside copy)

-- The fetcher refines the set of the pieces that have arrived: a message with a piece of metadata
-- shorter than 2^63 bytes, whose `total_size` is the piece's length, leaves a fetcher that holds this
-- piece too, in its place; the message is reported as the last exactly when every piece has arrived,
-- and then the buffer is the metadata.
pub handle_metadata_message-Refines :
    (c : Setting) (metadata : Bytes) (p : ℕ) (payload : Bytes) (has : ℕ → Bool)
    (f : MetadataFetcher)
    → length metadata < 2 ^ 63
    → Honest c metadata p payload
    → Refines metadata has f
    → let r = handle_metadata_message c payload f in
      Refines metadata (mark p has) r.1
      × ((r.0 ≡ ok true) ↔ ((q : ℕ) → q < piece_count metadata → mark p has q ≡ true))
      × (r.0 ≡ ok true → r.1.metadata_bytes ≡ some metadata)
handle_metadata_message-Refines c metadata p payload has f small m h =
    let (new, e, r) = payload_placed c metadata p payload has f small m h in
    let k = piece_received-Handled c metadata p (mark p has) new f small r in
    rw e (
      k.refines,
      k.reports,
      λ last. complete_buffer metadata (mark p has) _ k.refines (k.reports.0 last),
    )
