-- ===== src/Download/Worker/Single/Events.antt =====
-- The events of a worker of src/download/worker.rs that is alone with a queue of one piece.
use codecrafters_bittorrent.Prelude.{
  ℕ, ◌+◌, ◌%◌, ◌≤◌, ◌≡◌, refl, sym, ap, ◌∙◌, inl, inr, not, ◌&&◌, ◌||◌, List, Bytes, true, length,
  Option, none, some, Result, ok, err, ltb, ◌==◌, Bool-cases, arith,
}
use codecrafters_bittorrent.Utils.Words.{u32_mod}
use codecrafters_bittorrent.Peer.Connection.{PeerCommand, PeerEvent}
use codecrafters_bittorrent.Peer.Session.{SessionControl, continue, reconnect, stop}
use codecrafters_bittorrent.Download.Queue
use codecrafters_bittorrent.Download.Queue.{PieceQueue}
use codecrafters_bittorrent.Download.Worker.{
  DownloadState, Setting, PeerWorker, WorkerError, bind_result, get_piece_len, send,
  abandon_active_piece, copy_block, store_block, receive_block, handle_piece_event, resume,
  stop_if_done, is_active, on_unchoke, reconnecting, on_connect, on_event,
}
use codecrafters_bittorrent.Download.Worker.Requests.{IsActive}
use codecrafters_bittorrent.Download.Worker.Assembly.{copy_block-IsActive}
use codecrafters_bittorrent.Download.Worker.Settlement.{copy_block-index}
use codecrafters_bittorrent.Download.Worker.Single.{
  IsOpen, OnlyPiece, working, saved, Kept, send-OnlyPiece, request_for-OnlyPiece,
}
use codecrafters_bittorrent.Download.Worker.Single.Pieces.{
  abandon-OnlyPiece, start_next_piece-OnlyPiece,
}
use codecrafters_bittorrent.Download.Worker.Single.Finish.{advance-Kept}

module _ (c : Setting) (i total : ℕ) (alone : (q : PieceQueue) → c.await q ≡ q)
    (whole : get_piece_len c.metainfo i ≡ ok total) (base : c.base_piece_index ≡ i) where
  unchanged : (w : PeerWorker) → OnlyPiece c i total w → Kept c i total (ok continue, w)
  unchanged w h = record { only = h; stops_saved = λ e. cc }

  store_block-Kept :
      (r : Result WorkerError DownloadState) (w : PeerWorker)
      → ((d : DownloadState) → r ≡ ok d → IsActive c d × (d.index ≡ i))
      → IsOpen i w.queue
      → OnlyPiece c i total w
      → length w.output_file ≤ total
      → Kept c i total (store_block c r w)
  unfolding store_block
  store_block-Kept (ok d) w a q h l =
      let (active, index) = a d refl in advance-Kept c i total alone whole base d w active index q l
  store_block-Kept (err x) w a q h l = record { only = h; stops_saved = λ e. cc }

  after_abandon-Kept :
      (w : PeerWorker) (k : Result WorkerError SessionControl)
      → ¬ (k ≡ ok stop)
      → OnlyPiece c i total w
      → Kept c i total (bind_result (abandon_active_piece w) (λ u w'. (k, w')))
  after_abandon-Kept w k ne h =
      let (kept, done) = abandon-OnlyPiece c i total w h in
      rw done (record { only = kept; stops_saved = λ e. absurd (ne e) })

  receive_block-Kept :
      (d : DownloadState) (index begin : ℕ) (block : Bytes) (w : PeerWorker)
      → IsActive c d
      → d.index ≡ i
      → IsOpen i w.queue
      → OnlyPiece c i total w
      → length w.output_file ≤ total
      → Kept c i total (receive_block c d index begin block w)
  unfolding receive_block
  receive_block-Kept d index begin block w a e q h l =
      let end = (begin + length block % u32_mod) % u32_mod in
      elim (Bool-cases (not (d.index == index) || not (d.offset == begin))) [
        | inl other ↦ rw other (unchanged w h)
        | inr ours ↦ elim (Bool-cases (ltb (length d.buffer) end)) [
          | inl over ↦ rw (ours, over) (after_abandon-Kept w (err WorkerError.overrun) (λ x. cc) h)
          | inr fits ↦
              let there : begin ≡ d.offset = ground arith in
              rw (ours, fits)
                (store_block-Kept _ w
                  (λ d' s. (
                    copy_block-IsActive c d block end d' a (ground arith) (ground arith)
                        (ap (λ k. copy_block d k end block) (sym there) ∙ s),
                    copy_block-index d begin end block d' s ∙ e,
                  ))
                  q h l)
        ]
      ]

  handle_piece_event-Kept :
      (o : Option DownloadState) (q : PieceQueue) (file : Bytes) (sent : List PeerCommand)
      (index begin : ℕ) (block : Bytes)
      → OnlyPiece c i total
          (record { queue = q; output_file = file; active_download = o; sent = sent })
      → Kept c i total (
          handle_piece_event c index begin block
            (record { queue = q; output_file = file; active_download = o; sent = sent }))
  unfolding handle_piece_event
  handle_piece_event-Kept none q file sent index begin block h = unchanged _ h
  handle_piece_event-Kept (some d) q file sent index begin block (working p a l) =
      receive_block-Kept d index begin block _ a.0 a.1 p (working p a l) l
  handle_piece_event-Kept (some d) q file sent index begin block (saved f idle v n) = cc

  resume-OnlyPiece :
      (o : Option DownloadState) (q : PieceQueue) (file : Bytes) (sent : List PeerCommand)
      → OnlyPiece c i total
          (record { queue = q; output_file = file; active_download = o; sent = sent })
      → OnlyPiece c i total
          (resume c (record { queue = q; output_file = file; active_download = o; sent = sent })).1
  unfolding resume
  resume-OnlyPiece none q file sent h = start_next_piece-OnlyPiece c i total alone whole _ h refl
  resume-OnlyPiece (some d) q file sent h = request_for-OnlyPiece c i total d _ h

  after_resume-Kept :
      (r : Result WorkerError (Unit {0}) × PeerWorker)
      → OnlyPiece c i total r.1
      → Kept c i total (bind_result r (λ _. stop_if_done c))
  unfolding stop_if_done Queue.is_shutdown
  after_resume-Kept (ok u, w) h =
      elim (Bool-cases (Queue.is_shutdown w.queue && not (is_active c w))) [
        | inl b ↦
            let f : w.queue.finished ≡ true = ground arith in
            rw b (record { only = h; stops_saved = λ e. f })
        | inr b ↦ rw b (unchanged w h)
      ]
  after_resume-Kept (err x, w) h = record { only = h; stops_saved = λ e. cc }

  pub on_event-Kept :
      (e : PeerEvent) (w : PeerWorker) → OnlyPiece c i total w → Kept c i total (on_event c e w)
  unfolding on_event
  on_event-Kept PeerEvent.choke w h =
      unfold reconnecting in after_abandon-Kept w (ok reconnect) (λ x. cc) h
  on_event-Kept PeerEvent.unchoke w h =
      unfold on_unchoke in
      after_resume-Kept (resume c w)
        (resume-OnlyPiece w.active_download w.queue w.output_file w.sent h)
  on_event-Kept (PeerEvent.piece index begin block) w h =
      handle_piece_event-Kept w.active_download w.queue w.output_file w.sent index begin block h
  on_event-Kept PeerEvent.io_error w h =
      unfold reconnecting in after_abandon-Kept w (ok reconnect) (λ x. cc) h
  on_event-Kept e w h = unchanged w h

  connected :
      (r : Result WorkerError (Unit {0}) × PeerWorker)
      → OnlyPiece c i total r.1
      → Kept c i total (bind_result r (λ _ w. (ok continue, w)))
  connected (ok u, w) h = unchanged w h
  connected (err x, w) h = record { only = h; stops_saved = λ e. cc }

  pub on_connect-Kept : (w : PeerWorker) → OnlyPiece c i total w → Kept c i total (on_connect c w)
  unfolding on_connect
  on_connect-Kept w h =
      let (kept, done) = abandon-OnlyPiece c i total w h in
      rw done (
        connected (send c PeerCommand.interested (abandon_active_piece w).1)
          (send-OnlyPiece c i total PeerCommand.interested (abandon_active_piece w).1 kept))
