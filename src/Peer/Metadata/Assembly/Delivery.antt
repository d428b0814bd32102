-- ===== src/Peer/Metadata/Assembly/Delivery.antt =====
-- A peer of src/peer/metadata.rs that sends each piece of the metadata, in any order.
use codecrafters_bittorrent.Prelude.{
  ℕ, zero, suc, ◌+◌, ◌^◌, ◌<◌, ◌≡◌, refl, ◌∙◌, Bool, true, false, ◌||◌, List, [], ◌∷◌, map, All,
  arith, Bytes, length, some, Result, ok, err, leb, ◌==◌, Bool-cases, inl, inr, ◌⊎◌,
}
use codecrafters_bittorrent.Peer.Connection.{PeerCommand, PeerEvent}
use codecrafters_bittorrent.Peer.Connection.Handshake.{PeerConnection}
use codecrafters_bittorrent.Peer.Session.{LoopExit, event_loop}
use codecrafters_bittorrent.Peer.Session.Rounds.{event_loop_continue, event_loop_stop}
use codecrafters_bittorrent.Peer.Metadata.Fetcher.{
  Setting, MetadataFetcher, MetadataError, bind_result, contains, expected_piece_count, insert,
  control_of,
}
use codecrafters_bittorrent.Peer.Metadata.{
  request_metadata_piece, request_from, request_missing_pieces, piece_received,
  handle_metadata_message, on_metadata, handler,
}
use codecrafters_bittorrent.Peer.Metadata.Requests.{requested, request_from-keeps}
use codecrafters_bittorrent.Peer.Metadata.Assembly.{mark, piece_count, Refines, Honest}
use codecrafters_bittorrent.Peer.Metadata.Assembly.Step.{
  placed_in, payload_placed, handle_metadata_message-Refines,
}

-- Each send succeeds, and each request is encoded.
pub record Responsive (c : Setting) : Type 0 where
  pub sends : (sent : List PeerCommand) (cmd : PeerCommand) → c.sends sent cmd ≡ true
  pub encodes : (r : _) → (payload : Bytes) × (c.encode_request r ≡ some payload)

module _ (c : Setting) (responsive : Responsive c) (id : ℕ) where
  pub request_metadata_piece_ok :
      (piece : ℕ) (f : MetadataFetcher)
      → f.peer_metadata_id ≡ some id
      → (payload : Bytes) × (request_metadata_piece c piece f
          ≡ (ok tt, requested piece id payload f))
  unfolding request_metadata_piece
  request_metadata_piece_ok piece f known =
      let (payload, e) = responsive.encodes (record { msg_type = 0; piece = piece }) in
      let s = responsive.sends f.sent (PeerCommand.extended id payload) in
      (payload, simp (known, e, s))

  request_from_ok :
      (piece rounds : ℕ) (f : MetadataFetcher)
      → f.peer_metadata_id ≡ some id
      → (request_from c piece rounds f).0 ≡ ok tt
  unfolding request_from
  request_from_ok piece zero f known = refl
  request_from_ok piece (suc rounds) f known =
      elim (Bool-cases (contains piece f.requested_pieces)) [
        | inl b ↦ rw b (request_from_ok (piece + 1) rounds f known)
        | inr b ↦
            let (payload, e) = request_metadata_piece_ok piece f known in
            rw (b, e) (request_from_ok (piece + 1) rounds (requested piece id payload f) known)
      ]

  -- Either the piece was the last, or the fetcher goes on.
  record GoesOn (r : Result MetadataError Bool × MetadataFetcher) : Type 0 where
    succeeds : (r.0 ≡ ok true) ⊎ (r.0 ≡ ok false)
    id_kept : r.1.peer_metadata_id ≡ some id

  goes_on :
      (r : Result MetadataError (Unit {0}) × MetadataFetcher)
      → r.0 ≡ ok tt
      → r.1.peer_metadata_id ≡ some id
      → GoesOn (bind_result r (λ u w. (ok false, w)))
  goes_on (ok u, w) e k = record { succeeds = inr refl; id_kept = k }
  goes_on (err x, w) e k = cc

  piece_received-GoesOn :
      (size p : ℕ) (new : Bytes) (f : MetadataFetcher)
      → f.peer_metadata_id ≡ some id
      → GoesOn (piece_received c size p new f)
  unfolding piece_received request_missing_pieces
  piece_received-GoesOn size p new f known =
      elim (Bool-cases (leb (expected_piece_count size) (length (insert p f.received_pieces)))) [
        | inl b ↦ rw b (record { succeeds = inl refl; id_kept = known })
        | inr b ↦
            let n = expected_piece_count size in
            rw b (
              goes_on (request_from c 0 n (placed_in p new f))
                (request_from_ok 0 n (placed_in p new f) known)
                (request_from-keeps c (λ g. g.peer_metadata_id ≡ some id) (λ g h _ _. h) 0 n
                  (placed_in p new f) known))
      ]

-- The event of a message, and what other threads do before it: nothing.
abbrev pub arrival : ℕ × Bytes → (MetadataFetcher → MetadataFetcher) × PeerEvent
arrival (p, payload) = (λ f. f, PeerEvent.extended 42 payload)

-- A message with the piece `q` is among them.
abbrev pub brings : ℕ → List (ℕ × Bytes) → Bool
brings q [] = false
brings q ((p, payload) ∷ messages) = q == p || brings q messages

controlled :
    (r : Result MetadataError Bool × MetadataFetcher) (b : Bool)
    → r.0 ≡ ok b
    → bind_result r (λ complete w. (ok (control_of complete), w)) ≡ (ok (control_of b), r.1)
controlled (ok a, w) b e = let same : a ≡ b = cc in rw same refl
controlled (err x, w) b e = cc

module _ (c : Setting) (conn : PeerConnection) (payload : Bytes) (f : MetadataFetcher) where
  message_event :
      (b : Bool)
      → (handle_metadata_message c payload f).0 ≡ ok b
      → (handler c).on_event conn (PeerEvent.extended 42 payload) f
        ≡ (ok (control_of b), (handle_metadata_message c payload f).1)
  unfolding handler on_metadata
  message_event b e = controlled (handle_metadata_message c payload f) b e

  pub runs_on : (handler c).should_stop f ≡ false
  unfolding handler
  runs_on = refl

module _ (c : Setting) (responsive : Responsive c) (id : ℕ) (metadata : Bytes)
    (small : length metadata < 2 ^ 63) (conn : PeerConnection)
    (closing : MetadataFetcher → MetadataFetcher) where
  -- All pieces of the metadata that `has` lacks arrive.
  pub delivered :
      (messages : List (ℕ × Bytes)) (has : ℕ → Bool) (f : MetadataFetcher)
      → All (λ m. Honest c metadata m.0 m.1) messages
      → f.peer_metadata_id ≡ some id
      → Refines metadata has f
      → ¬ ((q : ℕ) → q < piece_count metadata → has q ≡ true)
      → ((q : ℕ) → q < piece_count metadata → (has q || brings q messages) ≡ true)
      → (g : MetadataFetcher) × (event_loop (handler c) conn (map arrival messages) closing f
          ≡ (LoopExit.stopped, g))
        × (g.metadata_bytes ≡ some metadata)
        × (g.peer_metadata_id ≡ some id)
  delivered [] has f honest known r missing all =
      absurd (missing (λ q below. let here = all q below in ground arith))
  delivered ((p, payload) ∷ messages) has f honest known r missing all =
      let (new, e, _) = payload_placed c metadata p payload has f small honest.0 r in
      let (r', last, full) =
        handle_metadata_message-Refines c metadata p payload has f small honest.0 r in
      let on = piece_received-GoesOn c responsive id (length metadata) p new f known in
      let on' : GoesOn c responsive id (handle_metadata_message c payload f) = rw e on in
      let t = (handle_metadata_message c payload f).1 in
      elim on'.succeeds [
        | inl done ↦ (
          t,
          event_loop_stop (handler c) conn _ _ _ closing f t (runs_on c conn payload f)
              (message_event c conn payload f true done),
          full done,
          on'.id_kept,
        )
        | inr more ↦
            let (g, loops, buffer, kept) =
              delivered messages (mark p has) t honest.1 on'.id_kept r'
                (λ every. let d = last.1 every in cc)
                (λ q below. let here = all q below in ground arith) in
            (
              g,
              event_loop_continue (handler c) conn _ _ _ closing f t (runs_on c conn payload f)
                    (message_event c conn payload f false more)
                  ∙ loops,
              buffer,
              kept,
            )
      ]
