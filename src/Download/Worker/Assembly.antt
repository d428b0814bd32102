-- ===== src/Download/Worker/Assembly.antt =====
-- The blocks that src/download/worker.rs receives: what they leave of the piece in hand and the requests.
use codecrafters_bittorrent.Prelude.{
  ℕ, ◌+◌, ◌-◌, ◌%◌, ◌≤◌, ◌≡◌, refl, ap, sym, subst, ◌∙◌, length-append, length-take, length-drop,
  inl, inr, not, ◌&&◌, ◌||◌, List, ◌++◌, Bytes, All, length, take, drop, Option, none, some, Result,
  ok, err, leb, ltb, ◌==◌, Bool-cases, Option-cases, arith,
}
use codecrafters_bittorrent.Utils.Words.{u32_mod}
use codecrafters_bittorrent.Peer.Connection.{PeerCommand, PeerEvent}
use codecrafters_bittorrent.Peer.Session.{reconnect}
use codecrafters_bittorrent.Download.Queue
use codecrafters_bittorrent.Download.Queue.{PieceQueue, Popped, piece, closed, parked}
use codecrafters_bittorrent.Download.Worker.{
  DownloadState, Setting, PeerWorker, WorkerError, bind_result, abandon_active_piece, copy_block,
  store_block, receive_block, handle_piece_event, resume, stop_if_done, is_active, on_unchoke,
  reconnecting, on_event,
}
use codecrafters_bittorrent.Download.Worker.Requests.{
  IsActive, InPiece, HandOk, IsWellFormed, request_for-IsWellFormed, start_next_piece-IsWellFormed,
  advance-IsWellFormed,
}

module _ (c : Setting) where
  -- A block that is copied in keeps the size of the buffer, and the offset moves to its end.
  pub copy_block-IsActive :
      (d : DownloadState) (block : Bytes) (end : ℕ) (d' : DownloadState)
      → IsActive c d
      → end ≡ (d.offset + length block % u32_mod) % u32_mod
      → end ≤ length d.buffer
      → copy_block d d.offset end block ≡ ok d'
      → IsActive c d'
  unfolding copy_block
  copy_block-IsActive d block end d' a e fits copied =
      elim (Bool-cases (leb d.offset end && (end - d.offset == length block))) [
        | inr b ↦ absurd (cc (rw b at copied))
        | inl b ↦
            let size : length block ≡ end - d.offset = ground arith in
            let order : d.offset ≤ end = ground arith in
            let buffer = take d.offset d.buffer ++ (block ++ drop end d.buffer) in
            let fill : length buffer ≡ d.length = omega (
              arith,
              length-append (take d.offset d.buffer) (block ++ drop end d.buffer),
              length-append block (drop end d.buffer),
              length-take d.offset d.buffer,
              length-drop end d.buffer,
              a.filled,
              a.inside,
            ) in
            let same : record d {
              buffer = buffer;
              offset = (d.offset + length block % u32_mod) % u32_mod;
            }
                ≡ d' =
              cc (rw b at copied) in
            subst (IsActive c) same (record {
              whole = a.whole;
              filled = fill;
              inside = omega (arith, a.filled);
              small = a.small;
            })
      ]

  store_block-IsWellFormed :
      (r : Result WorkerError DownloadState) (w : PeerWorker)
      → ((d : DownloadState) → r ≡ ok d → IsActive c d)
      → IsWellFormed c w
      → IsWellFormed c (store_block c r w).1
  unfolding store_block
  store_block-IsWellFormed (ok d) w a h = advance-IsWellFormed c d w (a d refl) h
  store_block-IsWellFormed (err x) w a h = h

  pub after_abandon-IsWellFormed :
      {A : Type 0} (w : PeerWorker) (k : Result WorkerError A)
      → IsWellFormed c w
      → IsWellFormed c (bind_result (abandon_active_piece w) (λ u w'. (k, w'))).1
  unfolding abandon_active_piece
  after_abandon-IsWellFormed w k h = elim (Option-cases w.active_download) [
    | inl e ↦ rw (e, abandon_active_piece) h
    | inr (d, e) ↦ rw (e, abandon_active_piece) (record { hand = tt; requests = h.requests })
  ]

  receive_block-IsWellFormed :
      (d : DownloadState) (index begin : ℕ) (block : Bytes) (w : PeerWorker)
      → IsActive c d
      → IsWellFormed c w
      → IsWellFormed c (receive_block c d index begin block w).1
  unfolding receive_block
  receive_block-IsWellFormed d index begin block w a h =
      let end = (begin + length block % u32_mod) % u32_mod in
      elim (Bool-cases (not (d.index == index) || not (d.offset == begin))) [
        | inl other ↦ rw other h
        | inr ours ↦ elim (Bool-cases (ltb (length d.buffer) end)) [
          | inl over ↦ rw (ours, over) (after_abandon-IsWellFormed w (err WorkerError.overrun) h)
          | inr fits ↦
              let there : begin ≡ d.offset = ground arith in
              rw (ours, fits)
                (store_block-IsWellFormed _ w
                  (λ d' e.
                    copy_block-IsActive d block end d' a (ground arith) (ground arith)
                      (ap (λ i. copy_block d i end block) (sym there) ∙ e))
                  h)
        ]
      ]

  handle_piece_event-IsWellFormed :
      (index begin : ℕ) (block : Bytes) (w : PeerWorker)
      → IsWellFormed c w
      → IsWellFormed c (handle_piece_event c index begin block w).1
  unfolding handle_piece_event
  handle_piece_event-IsWellFormed index begin block w h =
      by_hand w.active_download w.queue w.output_file w.sent h.hand h.requests
    where
      by_hand :
          (o : Option DownloadState) (q : PieceQueue) (file : Bytes) (sent : List PeerCommand)
          → HandOk c o
          → All (InPiece c) sent
          → IsWellFormed c
              (handle_piece_event c index begin block
                (record { queue = q; output_file = file; active_download = o; sent = sent })).1
      by_hand none q file sent a r = record { hand = a; requests = r }
      by_hand (some d) q file sent a r =
          receive_block-IsWellFormed d index begin block _ a (record { hand = a; requests = r })

  resume-IsWellFormed :
      (o : Option DownloadState) (q : PieceQueue) (file : Bytes) (sent : List PeerCommand)
      → HandOk c o
      → All (InPiece c) sent
      → IsWellFormed c
          (resume c (record { queue = q; output_file = file; active_download = o; sent = sent })).1
  unfolding resume
  resume-IsWellFormed none q file sent a r =
      start_next_piece-IsWellFormed c _ (record { hand = a; requests = r })
  resume-IsWellFormed (some d) q file sent a r =
      request_for-IsWellFormed c d _ a (record { hand = a; requests = r })

  after_resume-IsWellFormed :
      (r : Result WorkerError (Unit {0}) × PeerWorker)
      → IsWellFormed c r.1
      → IsWellFormed c (bind_result r (λ _. stop_if_done c)).1
  unfolding stop_if_done
  after_resume-IsWellFormed (ok u, w) h =
      elim (Bool-cases (Queue.is_shutdown w.queue && not (is_active c w))) [
        | inl b ↦ rw b h
        | inr b ↦ rw b h
      ]
  after_resume-IsWellFormed (err x, w) h = h

  -- Every event keeps a well-formed worker well-formed: the piece in hand has the length of the
  -- metainfo, and so has its buffer; every request that was sent is for 1 to 16384 bytes inside its
  -- piece.
  pub on_event-IsWellFormed :
      (e : PeerEvent) (w : PeerWorker) → IsWellFormed c w → IsWellFormed c (on_event c e w).1
  unfolding on_event
  on_event-IsWellFormed PeerEvent.choke w h =
      unfold reconnecting in after_abandon-IsWellFormed w (ok reconnect) h
  on_event-IsWellFormed PeerEvent.unchoke w h =
      unfold on_unchoke in
      after_resume-IsWellFormed (resume c w)
        (resume-IsWellFormed w.active_download w.queue w.output_file w.sent h.hand h.requests)
  on_event-IsWellFormed (PeerEvent.piece index begin block) w h =
      handle_piece_event-IsWellFormed index begin block w h
  on_event-IsWellFormed PeerEvent.io_error w h =
      unfold reconnecting in after_abandon-IsWellFormed w (ok reconnect) h
  on_event-IsWellFormed e w h = h
