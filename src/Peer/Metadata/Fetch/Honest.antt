-- ===== src/Peer/Metadata/Fetch/Honest.antt =====
-- `MetadataFetcher::run` of src/peer/metadata.rs with a first peer that has the metadata.
use codecrafters_bittorrent.Prelude.{
  ℕ, ◌^◌, ◌<◌, ◌≡◌, refl, ◌∙◌, true, false, List, [], ◌∷◌, map, All, arith, Bytes, length,
  length-replicate, replicate, Option, some, ok, leb, Option-cases, inl, inr,
}
use codecrafters_bittorrent.Peer.Connection.{PeerCommand, PeerEvent}
use codecrafters_bittorrent.Peer.Connection.Handshake.{PeerConnection}
use codecrafters_bittorrent.Peer.Extension
use codecrafters_bittorrent.Peer.Extension.{ExtensionHandshakePayload, get_extension_id}
use codecrafters_bittorrent.Utils.RawBytes.{Text}
use codecrafters_bittorrent.Torrent.Metainfo.{TorrentMetainfo, Codec, from_info_bytes}
use codecrafters_bittorrent.Tracker.Client.{Peer}
use codecrafters_bittorrent.Peer.Metadata.Fetch.{MetadataFetchResult, try_peers, fetch_result}
use codecrafters_bittorrent.Peer.Metadata.Fetch.Verified.{verified_metainfo-some, check_hash_same}
use codecrafters_bittorrent.Peer.Session.{
  done, ended, exhausted, LoopExit, event_loop, continue, Attempt, run, aggressive,
}
use codecrafters_bittorrent.Peer.Session.Rounds.{event_loop_continue, run_stopped}
use codecrafters_bittorrent.Peer.Metadata.Fetcher.{
  Setting, MetadataFetcher, zeroed, contains, metadata_extension_name,
  my_metadata_extension_message_id,
}
use codecrafters_bittorrent.Peer.Metadata.{
  handler, on_connect, on_handshake, on_extension_handshake, on_extension_payload, begin_metadata,
}
use codecrafters_bittorrent.Peer.Metadata.Requests.{requested}
use codecrafters_bittorrent.Peer.Metadata.Assembly.{piece_count, Refines, Honest}
use codecrafters_bittorrent.Peer.Metadata.Assembly.Delivery.{
  Responsive, arrival, brings, delivered, request_metadata_piece_ok, runs_on,
}

-- A fetcher that has neither sent its handshake nor received a piece, and wants the metadata.
pub record Fresh (f : MetadataFetcher) : Type 0 where
  pub not_sent : f.ext_handshake_sent ≡ false
  pub nothing_received : f.received_pieces ≡ []
  pub wants_metadata : f.handshake_only ≡ false

-- A payload of the extension handshake that offers the metadata under an id.
pub record Offers (c : Setting) (metadata : Bytes) (id : ℕ) (payload : Bytes) : Type 0 where
  pub offered : ExtensionHandshakePayload
  pub decoded : Extension.decode c.extension_codec payload ≡ some offered
  pub under_id : get_extension_id offered metadata_extension_name ≡ some id
  pub of_size : offered.metadata_size ≡ some (length metadata)

on_connect-Fresh :
    (c : Setting) (conn : PeerConnection) (f : MetadataFetcher)
    → Fresh f
    → (g : MetadataFetcher) × ((handler c).on_connect conn f ≡ (ok continue, g)) × Fresh g
unfolding handler
on_connect-Fresh c conn f h = elim (Option-cases conn.peer_id) [
  | inl e ↦ (f, rw (e, on_connect) refl, h)
  | inr (id, e) ↦ (
    record f { peer_id = some id },
    rw (e, on_connect) refl,
    record {
      not_sent = h.not_sent;
      nothing_received = h.nothing_received;
      wants_metadata = h.wants_metadata;
    },
  )
]

module _ (c : Setting) (responsive : Responsive c) (id : ℕ) (metadata : Bytes)
    (small : length metadata < 2 ^ 63) (conn : PeerConnection) where
  greeted :
      (peer_id : Option Bytes) (reserved : Bytes) (f : MetadataFetcher)
      → Fresh f
      → (hello : Bytes)
      → Extension.encode c.extension_codec
          (Extension.new ((metadata_extension_name, my_metadata_extension_message_id) ∷ []))
        ≡ some hello
      → (handler c).on_event conn (PeerEvent.handshake_complete peer_id reserved true) f ≡ (
        ok continue,
        record f { ext_handshake_sent = true; sent = PeerCommand.extended 0 hello ∷ f.sent },
      )
  unfolding handler on_handshake
  greeted peer_id reserved f h hello e =
      let s = responsive.sends f.sent (PeerCommand.extended 0 hello) in simp (h.not_sent, e, s)

  zeroed_lem : zeroed (length metadata) ≡ ok (replicate (length metadata) 0)
  unfolding zeroed
  zeroed_lem = let b : leb (2 ^ 63) (length metadata) ≡ false = ground arith in rw b refl

  accepts_offer :
      (payload : Bytes) (f : MetadataFetcher)
      → Offers c metadata id payload
      → f.received_pieces ≡ []
      → f.handshake_only ≡ false
      → (g : MetadataFetcher) × ((handler c).on_event conn (PeerEvent.extended 0 payload) f
          ≡ (ok continue, g))
        × (g.peer_metadata_id ≡ some id)
        × Refines metadata (λ q. false) g
  unfolding handler on_extension_handshake on_extension_payload begin_metadata contains
  accepts_offer payload f o nothing wants =
      let g = record f {
        handshake_only = false;
        peer_metadata_id = some id;
        total_size = some (length metadata);
        metadata_bytes = some (replicate (length metadata) 0);
      } in
      let (request, e) = request_metadata_piece_ok c responsive id 0 g refl in
      (
        requested 0 id request g,
        simp (o.decoded, o.under_id, wants, o.of_size, zeroed_lem, e),
        refl,
        record {
          size_known = refl;
          buffer = replicate (length metadata) 0;
          in_buffer = refl;
          length_kept = length-replicate (length metadata) 0;
          placed = λ i below never. cc;
          received = λ q. rw nothing refl;
          no_repeat = rw nothing tt;
          below = rw nothing tt;
        },
      )

-- What arrives from the peer: its handshakes, and then the messages with the pieces.
abbrev pub honest_arrivals :
    Option Bytes
    → Bytes
    → Bytes
    → List (ℕ × Bytes)
    → List ((MetadataFetcher → MetadataFetcher) × PeerEvent)
honest_arrivals peer_id reserved offer messages =
    (λ f. f, PeerEvent.handshake_complete peer_id reserved true)
    ∷ (λ f. f, PeerEvent.extended 0 offer)
    ∷ map arrival messages

pub record HonestPeer (c : Setting) (metadata : Bytes) (id : ℕ) (a : Attempt MetadataFetcher)
    : Type 0 where
  pub conn : PeerConnection
  pub connects : a.connection ≡ ok conn
  -- No other thread has the fetcher.
  pub alone : (f : MetadataFetcher) → a.connecting f ≡ f
  pub peer_id : Option Bytes
  pub reserved : Bytes
  pub hello : Bytes
  pub encodes :
      Extension.encode c.extension_codec
        (Extension.new ((metadata_extension_name, my_metadata_extension_message_id) ∷ []))
      ≡ some hello
  pub offer : Bytes
  pub offers : Offers c metadata id offer
  pub messages : List (ℕ × Bytes)
  pub arrives : a.arrivals ≡ honest_arrivals peer_id reserved offer messages
  pub honest : All (λ m. Honest c metadata m.0 m.1) messages
  pub all_pieces : (q : ℕ) → q < piece_count metadata → brings q messages ≡ true

module _ (c : Setting) (responsive : Responsive c) (id : ℕ) (metadata : Bytes)
    (some_byte : 0 < length metadata) (small : length metadata < 2 ^ 63) where
  loop_stopped :
      (conn : PeerConnection) (closing : MetadataFetcher → MetadataFetcher)
      (a : Attempt MetadataFetcher) (p : HonestPeer c metadata id a) (f : MetadataFetcher)
      → Fresh f
      → (g : MetadataFetcher) × (event_loop (handler c) conn a.arrivals closing f
          ≡ (LoopExit.stopped, g))
        × (g.metadata_bytes ≡ some metadata)
        × (g.peer_metadata_id ≡ some id)
  loop_stopped conn closing a p f h =
      let f₁ = record f {
        ext_handshake_sent = true;
        sent = PeerCommand.extended 0 p.hello ∷ f.sent;
      } in
      let first =
        greeted c responsive id metadata small conn p.peer_id p.reserved f h p.hello p.encodes in
      let (f₂, second, known, holds) =
        accepts_offer c responsive id metadata small conn p.offer f₁ p.offers h.nothing_received
          h.wants_metadata in
      let (g, rest, buffer, kept) =
        delivered c responsive id metadata small conn closing p.messages (λ q. false) f₂ p.honest
          known holds (λ every. let none_yet = every 0 (omega arith) in cc) p.all_pieces in
      (
        g,
        rw p.arrives (
            event_loop_continue (handler c) conn _ _ _ closing f f₁ (runs_on c conn [] f) first
            ∙ event_loop_continue (handler c) conn _ _ _ closing f₁ f₂ (runs_on c conn [] f₁) second
            ∙ rest),
        buffer,
        kept,
      )

  pub session_fetches :
      (a : Attempt MetadataFetcher) (network : List (Attempt MetadataFetcher)) (f : MetadataFetcher)
      → HonestPeer c metadata id a
      → Fresh f
      → (g : MetadataFetcher) × (run (handler c) aggressive (a ∷ network) f ≡ ended done g)
        × (g.metadata_bytes ≡ some metadata)
        × (g.peer_metadata_id ≡ some id)
  session_fetches a network f p h =
      let (f₁, starts, fresh) = on_connect-Fresh c p.conn f h in
      let (g, stops, buffer, kept) = loop_stopped p.conn a.closing a p f₁ fresh in
      (
        g,
        run_stopped (handler c) aggressive a network p.conn f f₁ g (runs_on c p.conn [] f)
            (unfold exhausted aggressive in refl) p.connects (rw (p.alone f) starts) stops,
        buffer,
        kept,
      )

-- For metadata of at least one and fewer than 2^63 bytes that decodes to the metainfo whose info hash
-- is requested: where sends succeed and bencode encodes, and the first peer connects, offers the
-- metadata and sends each piece of it at least once, in any order, with the piece's length as
-- `total_size`, a fresh fetcher returns the metainfo of these bytes, and the peer's id for the
-- extension.
pub try_peers_fetches :
    (m : Codec) (c : Setting) (network : ℕ → List (Attempt MetadataFetcher)) (id : ℕ)
    (metadata : Bytes) (a : Attempt MetadataFetcher) (later : List (Attempt MetadataFetcher))
    (tracker_url : Text) (peer : Peer) (peers : List Peer) (metainfo : TorrentMetainfo)
    (f : MetadataFetcher)
    → Responsive c
    → 0 < length metadata
    → length metadata < 2 ^ 63
    → network 0 ≡ a ∷ later
    → HonestPeer c metadata id a
    → from_info_bytes m tracker_url metadata ≡ ok metainfo
    → Fresh f
    → (r : MetadataFetchResult) × ((try_peers m c network tracker_url metainfo.info_hash
          (peer ∷ peers)
          0
          f).0
        ≡ ok r)
      × (r.metainfo ≡ some metainfo)
      × (r.peer_metadata_id ≡ some id)
unfolding try_peers fetch_result
try_peers_fetches m c network id metadata a later tracker_url peer peers metainfo f responsive
      some_byte small answers p decodes h =
    let (g, session, buffer, kept) =
      session_fetches c responsive id metadata some_byte small a later f p h in
    let verified =
      verified_metainfo-some m tracker_url metainfo.info_hash metadata metainfo decodes
      ∙ check_hash_same m metainfo in
    (
      record {
        peer_id = g.peer_id;
        peer_metadata_id = g.peer_metadata_id;
        metainfo = some metainfo;
      },
      simp (answers, session, buffer, verified),
      refl,
      kept,
    )
