-- ===== src/Download/Worker/Settlement.antt =====
-- The callbacks of src/download/worker.rs as steps of the fleet.
use codecrafters_bittorrent.Prelude.{
  ℕ, ◌+◌, ◌%◌, ◌≡◌, refl, ◌∙◌, ap, inl, inr, not, ◌||◌, List, [], ◌∷◌, Bytes, length, Option, none,
  some, Result, ok, err, ltb, ◌==◌, Bool-cases, arith,
}
use codecrafters_bittorrent.Peer.Connection.{PeerCommand, PeerEvent}
use codecrafters_bittorrent.Utils.Words.{u32_mod}
use codecrafters_bittorrent.Peer.Session.{reconnect}
use codecrafters_bittorrent.Download.Queue.{PieceQueue}
use codecrafters_bittorrent.Download.Worker.Integrity.{
  after_abandon-file, resume-file, after_resume-file,
}
use codecrafters_bittorrent.Download.Worker.Ledger.{
  hand_of, Moves, Settles, keeps, drops, Moves-refl, Moves-gives_back,
}
use codecrafters_bittorrent.Download.Worker.{
  DownloadState, Setting, PeerWorker, WorkerError, bind_result, abandon_active_piece, copy_block,
  store_block, receive_block, handle_piece_event, resume, stop_if_done, on_unchoke, reconnecting,
  on_event,
}
use codecrafters_bittorrent.Download.Worker.Callbacks.{
  IsSettled, unfinished, Settles-same, request_for-Settles, start_next_piece-Settles,
  advance-IsSettled,
}

abbrev worker_of : PieceQueue → Bytes → Option DownloadState → List PeerCommand → PeerWorker
worker_of q file o sent = record { queue = q; output_file = file; active_download = o; sent = sent }

pub copy_block-index :
    (d : DownloadState) (begin end : ℕ) (block : Bytes) (d' : DownloadState)
    → copy_block d begin end block ≡ ok d'
    → d'.index ≡ d.index
unfolding copy_block
copy_block-index d begin end block d' e = ground arith

-- `abandon_active_piece` gives back what is in hand.
pub abandon-Moves :
    (w : PeerWorker) (o : Option DownloadState)
    → w.active_download ≡ o
    → let r = abandon_active_piece w in
      Moves w.queue (hand_of o) r.1.queue [] [] × (r.1.active_download ≡ none) × (r.0 ≡ ok tt)
unfolding abandon_active_piece
abandon-Moves w none e = rw (e, abandon_active_piece) (Moves-refl w.queue [], e, refl)
abandon-Moves w (some d) e =
    rw (e, abandon_active_piece) (Moves-gives_back w.queue d.index, refl, refl)

module _ (c : Setting) where
  -- What a call settles without a write.
  settled :
      {A : Type 0} (q : PieceQueue) (h : List ℕ) (file : Bytes)
      (r : Result WorkerError A × PeerWorker)
      → r.1.output_file ≡ file
      → Settles q h [] r
      → IsSettled c q h file r
  settled q h file r same s = unfinished (inl same) s

  store_block-IsSettled :
      (alone : (q : PieceQueue) → c.await q ≡ q) (d : DownloadState)
      (r : Result WorkerError DownloadState) (w : PeerWorker)
      → w.active_download ≡ some d
      → ((d' : DownloadState) → r ≡ ok d' → d'.index ≡ d.index)
      → IsSettled c w.queue (d.index ∷ []) w.output_file (store_block c r w)
  unfolding store_block
  store_block-IsSettled alone d (ok d') w e same =
      rw (← same d' refl) (advance-IsSettled c d' w alone)
  store_block-IsSettled alone d (err x) w e same =
      settled w.queue _ _ _ refl (Settles-same w.queue _ _ refl (ap hand_of e))

  receive_block-IsSettled :
      (alone : (q : PieceQueue) → c.await q ≡ q) (d : DownloadState) (index begin : ℕ)
      (block : Bytes) (w : PeerWorker)
      → w.active_download ≡ some d
      → IsSettled c w.queue (d.index ∷ []) w.output_file (receive_block c d index begin block w)
  unfolding receive_block
  receive_block-IsSettled alone d index begin block w e =
      let end = (begin + length block % u32_mod) % u32_mod in
      elim (Bool-cases (not (d.index == index) || not (d.offset == begin))) [
        | inl other ↦
            rw other (settled w.queue _ _ _ refl (Settles-same w.queue _ _ refl (ap hand_of e)))
        | inr ours ↦ elim (Bool-cases (ltb (length d.buffer) end)) [
          | inl over ↦
              let (m, free, done) = abandon-Moves w (some d) e in
              rw (ours, over)
                (settled w.queue _ _ _ (after_abandon-file c w (err WorkerError.overrun))
                  (rw done (keeps (rw free m))))
          | inr fits ↦
              rw (ours, fits)
                (store_block-IsSettled alone d _ w e (copy_block-index d begin end block))
        ]
      ]

  reconnecting-IsSettled :
      (o : Option DownloadState) (w : PeerWorker)
      → w.active_download ≡ o
      → IsSettled c w.queue (hand_of o) w.output_file (reconnecting c w)
  unfolding reconnecting
  reconnecting-IsSettled o w e =
      let (m, free, done) = abandon-Moves w o e in
      settled w.queue _ _ _ (after_abandon-file c w (ok reconnect)) (rw done (keeps (rw free m)))

  resume-Settles :
      (alone : (q : PieceQueue) → c.await q ≡ q) (q : PieceQueue) (file : Bytes)
      (o : Option DownloadState) (sent : List PeerCommand)
      → Settles q (hand_of o) [] (resume c (worker_of q file o sent))
  unfolding resume
  resume-Settles alone q file none sent =
      start_next_piece-Settles c (worker_of q file none sent) alone refl
  resume-Settles alone q file (some d) sent =
      request_for-Settles c d (worker_of q file (some d) sent) refl

  stop_if_done-same : (w : PeerWorker) → ((stop_if_done c w).1 ≡ w)
  unfolding stop_if_done
  stop_if_done-same w = ground arith

  after_resume-Settles :
      (q : PieceQueue) (h : List ℕ) (r : Result WorkerError (Unit {0}) × PeerWorker)
      → Settles q h [] r
      → Settles q h [] (bind_result r (λ _. stop_if_done c))
  after_resume-Settles q h (ok u, w) (keeps m) = keeps (rw (stop_if_done-same w) m)
  after_resume-Settles q h (ok u, w) (drops i q' (inl e) m l a) = absurd (cc e)
  after_resume-Settles q h (ok u, w) (drops i q' (inr e) m l a) = absurd (cc e)
  after_resume-Settles q h (err x, w) (keeps m) = keeps m
  after_resume-Settles q h (err x, w) (drops i q' (inl e) m l a) = drops i q' (inl (cc)) m l a
  after_resume-Settles q h (err x, w) (drops i q' (inr e) m l a) = drops i q' (inr (cc)) m l a

  handle_piece_event-IsSettled :
      (alone : (q : PieceQueue) → c.await q ≡ q) (q : PieceQueue) (file : Bytes)
      (o : Option DownloadState) (sent : List PeerCommand) (index begin : ℕ) (block : Bytes)
      → IsSettled c q
          (hand_of o)
          file
          (handle_piece_event c index begin block (worker_of q file o sent))
  unfolding handle_piece_event
  handle_piece_event-IsSettled alone q file none sent index begin block =
      settled q [] file _ refl (Settles-same q [] _ refl refl)
  handle_piece_event-IsSettled alone q file (some d) sent index begin block =
      receive_block-IsSettled alone d index begin block (worker_of q file (some d) sent) refl

  -- When the other threads leave the queue alone while the callback waits in `pop`: the worker's
  -- callback for an event, on every path, is a sequence of fleet steps that settles the piece in hand.
  -- The piece is completed only when its bytes, whose SHA-1 is the metainfo's hash for it, are in the
  -- file at its offset, and no other piece is; otherwise no piece is completed, and the file is as it
  -- was, but for a write that failed. No piece is lost, unless the call fails with a failed write or a
  -- panic, which loses only the piece in hand.
  pub on_event-IsSettled :
      ((q : PieceQueue) → c.await q ≡ q)
      → (e : PeerEvent) (w : PeerWorker)
      → IsSettled c w.queue (hand_of w.active_download) w.output_file (on_event c e w)
  unfolding on_event
  on_event-IsSettled alone PeerEvent.choke w = reconnecting-IsSettled w.active_download w refl
  on_event-IsSettled alone PeerEvent.unchoke w =
      unfold on_unchoke in
      settled w.queue _ _ _
        (after_resume-file c (resume c w)
          ∙ resume-file c w.active_download w.queue w.output_file w.sent)
        (after_resume-Settles w.queue _ _
          (resume-Settles alone w.queue w.output_file w.active_download w.sent))
  on_event-IsSettled alone (PeerEvent.piece index begin block) w =
      handle_piece_event-IsSettled alone w.queue w.output_file w.active_download w.sent index begin
        block
  on_event-IsSettled alone PeerEvent.io_error w = reconnecting-IsSettled w.active_download w refl
  on_event-IsSettled alone e w = settled w.queue _ _ _ refl (Settles-same w.queue _ _ refl refl)
