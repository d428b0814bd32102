-- ===== src/Peer/Metadata/Requests.antt =====
-- The requests for pieces in src/peer/metadata.rs.
use codecrafters_bittorrent.Prelude.{
  ℕ, zero, suc, ◌+◌, ◌≡◌, refl, ◌⊎◌, inl, inr, List, ◌∷◌, Bytes, some, ok, err, Bool-cases,
  Option-cases,
}
use codecrafters_bittorrent.Peer.Connection.{PeerCommand}
use codecrafters_bittorrent.Peer.Metadata.Fetcher.{
  Setting, MetadataFetcher, MetadataError, contains, insert,
}
use codecrafters_bittorrent.Peer.Metadata.{request_metadata_piece, request_from}

-- The fetcher behind a request that was sent.
abbrev pub requested : ℕ → ℕ → Bytes → MetadataFetcher → MetadataFetcher
requested piece id payload f = record f {
  sent = PeerCommand.extended id payload ∷ f.sent;
  requested_pieces = insert piece f.requested_pieces;
}

module _ (c : Setting) where
  pub request_metadata_piece_cases :
      (piece : ℕ) (f : MetadataFetcher)
      → ((e : MetadataError) × (request_metadata_piece c piece f ≡ (err e, f)))
        ⊎ ((id : ℕ) × (payload : Bytes) × (f.peer_metadata_id ≡ some id)
            × (c.encode_request (record { msg_type = 0; piece = piece }) ≡ some payload)
            × (request_metadata_piece c piece f ≡ (ok tt, requested piece id payload f)))
  unfolding request_metadata_piece
  request_metadata_piece_cases piece f = elim (Option-cases f.peer_metadata_id) [
    | inl e ↦ inl (MetadataError.missing_extension_id, rw (e, request_metadata_piece) refl)
    | inr (id, e) ↦
        elim (Option-cases (c.encode_request (record { msg_type = 0; piece = piece }))) [
          | inl e' ↦ inl (MetadataError.encoding_failed, rw (e, e', request_metadata_piece) refl)
          | inr (payload, e') ↦
              elim (Bool-cases (c.sends f.sent (PeerCommand.extended id payload))) [
                | inl b ↦ inr (id, payload, e, e', rw (e, e', b, request_metadata_piece) refl)
                | inr b ↦
                    inl (MetadataError.send_failed, rw (e, e', b, request_metadata_piece) refl)
              ]
        ]
  ]

-- What the requests leave alone.
module _ (c : Setting) (P : MetadataFetcher → Type 0)
    (kept : (f : MetadataFetcher)
      → P f
      → (sent : List PeerCommand) (pieces : List ℕ)
      → P (record f { sent = sent; requested_pieces = pieces })) where
  pub request_metadata_piece-keeps :
      (piece : ℕ) (f : MetadataFetcher) → P f → P (request_metadata_piece c piece f).1
  request_metadata_piece-keeps piece f h = elim (request_metadata_piece_cases c piece f) [
    | inl (x, e) ↦ rw e h
    | inr (id, payload, _, _, e) ↦ rw e (kept f h _ _)
  ]

  pub request_from-keeps :
      (piece rounds : ℕ) (f : MetadataFetcher) → P f → P (request_from c piece rounds f).1
  unfolding request_from
  request_from-keeps piece zero f h = h
  request_from-keeps piece (suc rounds) f h =
      elim (Bool-cases (contains piece f.requested_pieces)) [
        | inl b ↦ rw b (request_from-keeps (piece + 1) rounds f h)
        | inr b ↦ rw b (elim (request_metadata_piece_cases c piece f) [
          | inl (x, e) ↦ rw e h
          | inr (id, payload, _, _, e) ↦
              rw e (
                request_from-keeps (piece + 1) rounds (requested piece id payload f) (kept f h _ _))
        ])
      ]
