-- ===== src/Download/Worker/Single/Finish.antt =====
-- How a worker of src/download/worker.rs finishes its piece, when it is alone with a queue of one piece.
use codecrafters_bittorrent.Prelude.{
  ℕ, zero, suc, ◌-◌, ◌*◌, ◌%◌, ◌≤◌, ◌≡◌, refl, sym, ap, ◌∙◌, subst, inl, inr, true, length, take,
  none, some, Result, ok, err, leb, list_eq, list_eq→eq, length-take, Bool-cases, Option-cases,
  Result-cases, arith,
}
use codecrafters_bittorrent.Peer.Session.{continue}
use codecrafters_bittorrent.Torrent.Metainfo.{get_piece_hash_bytes}
use codecrafters_bittorrent.Download.Queue
use codecrafters_bittorrent.Download.Queue.{PieceQueue, Popped, piece, closed, parked, pop_from}
use codecrafters_bittorrent.Download.Worker.{
  DownloadState, Setting, PeerWorker, WorkerError, u64_mod, get_piece_len, persist_piece,
  with_control, next_or_stop, complete_piece, reject_piece, finish_piece, advance,
}
use codecrafters_bittorrent.Download.Worker.Integrity.{IsVerified}
use codecrafters_bittorrent.Download.Worker.Requests.{IsActive}
use codecrafters_bittorrent.Download.Worker.Single.{
  IsOpen, HandIs, OnlyPiece, working, saved, Kept, write_at_start, length-write_at_start,
  request_for-OnlyPiece,
}
use codecrafters_bittorrent.Download.Worker.Single.Pieces.{push-IsOpen}

module _ (c : Setting) (i total : ℕ) (alone : (q : PieceQueue) → c.await q ≡ q)
    (whole : get_piece_len c.metainfo i ≡ ok total) where
  module _ (base : c.base_piece_index ≡ i) where
    at_start :
        (index : ℕ)
        → index ≡ i
        → ((index - c.base_piece_index) * c.metainfo.piece_length) % u64_mod ≡ 0
    at_start index e =
        let none_before : index - c.base_piece_index ≡ 0 = omega arith in
        rw none_before (omega arith)

    completed : (q : PieceQueue) → IsOpen i q → Queue.is_shutdown (Queue.mark_completed q) ≡ true
    unfolding Queue.mark_completed Queue.is_shutdown
    completed q h = ground arith

    stop_when_saved :
        (w : PeerWorker)
        → Queue.is_shutdown w.queue ≡ true
        → w.active_download ≡ none
        → IsVerified c i w.output_file
        → length w.output_file ≡ total
        → Kept c i total (next_or_stop c w)
    unfolding next_or_stop
    stop_when_saved w f idle v n =
        let done : w.queue.finished ≡ true = unfold Queue.is_shutdown in f in
        rw f (record { only = saved done idle v n; stops_saved = λ _. done })

    full_length : (d : DownloadState) → IsActive c d → d.index ≡ i → length d.buffer ≡ total
    full_length d a e =
        let same : ◌≡◌ {A = Result WorkerError ℕ} (ok d.length) (ok total) =
          sym a.whole ∙ ap (get_piece_len c.metainfo) e ∙ whole in
        a.filled ∙ (ground arith)

    stopped_by_error :
        (x : WorkerError) (w : PeerWorker)
        → IsOpen i w.queue
        → w.active_download ≡ none
        → length w.output_file ≤ total
        → Kept c i total (err x, w)
    stopped_by_error x w q idle l = record {
      only = working q (subst (HandIs c i) (sym idle) tt) l;
      stops_saved = λ e. cc;
    }

    complete_piece-Kept :
        (d : DownloadState) (w : PeerWorker)
        → IsActive c d
        → d.index ≡ i
        → IsVerified c d.index d.buffer
        → IsOpen i w.queue
        → w.active_download ≡ none
        → length w.output_file ≤ total
        → Kept c i total (complete_piece c d w)
    unfolding complete_piece
    complete_piece-Kept d w a e v q idle l = elim (Option-cases (c.write_fails d.index d.buffer)) [
      | inl b ↦
          let written = write_at_start w.output_file d.buffer (omega (arith, full_length d a e)) in
          rw (b, persist_piece, at_start d.index e)
            (stop_when_saved _ (completed w.queue q) idle
              (subst (IsVerified c i) (sym written) (subst (λ k. IsVerified c k d.buffer) e v))
              (ap length written ∙ full_length d a e))
      | inr (zero, b) ↦ rw (b, persist_piece) (stopped_by_error _ w q idle l)
      | inr (suc n, b) ↦
          rw (b, persist_piece, at_start d.index e)
            (stopped_by_error _ _ q idle (
              length-write_at_start w.output_file (take (suc n) d.buffer) total l
                (omega (arith, length-take (suc n) d.buffer, full_length d a e))))
    ]

    finish_piece-Kept :
        (d : DownloadState) (w : PeerWorker)
        → IsActive c d
        → d.index ≡ i
        → IsOpen i w.queue
        → w.active_download ≡ none
        → length w.output_file ≤ total
        → Kept c i total (finish_piece c d w)
    unfolding finish_piece
    finish_piece-Kept d w a e q idle l =
        elim (Result-cases (get_piece_hash_bytes c.metainfo d.index)) [
          | inr (x, p) ↦ rw (p, finish_piece) (stopped_by_error _ w q idle l)
          | inl (expected, p) ↦ elim (Bool-cases (list_eq expected (c.sha1 d.buffer))) [
            | inl same ↦
                rw (p, same, finish_piece)
                  (complete_piece-Kept d w a e
                    (p ∙ ap ok (list_eq→eq expected (c.sha1 d.buffer) same)) q idle l)
            | inr differs ↦
                rw (p, differs, finish_piece)
                  (unfold reject_piece in
                    stopped_by_error _ (record w { queue = Queue.push w.queue d.index })
                      (push-IsOpen i d.index w.queue q e) idle l)
          ]
        ]

    going_on :
        (r : Result WorkerError (Unit {0}) × PeerWorker)
        → OnlyPiece c i total r.1
        → Kept c i total (with_control c r continue)
    unfolding with_control
    going_on (ok u, w) h = record { only = h; stops_saved = λ e. cc }
    going_on (err x, w) h = record { only = h; stops_saved = λ e. cc }

    pub advance-Kept :
        (d : DownloadState) (w : PeerWorker)
        → IsActive c d
        → d.index ≡ i
        → IsOpen i w.queue
        → length w.output_file ≤ total
        → Kept c i total (advance c d w)
    unfolding advance
    advance-Kept d w a e q l = elim (Bool-cases (leb d.length d.offset)) [
      | inl full ↦ rw full (finish_piece-Kept d (record w { active_download = none }) a e q refl l)
      | inr partial ↦ rw partial (
          going_on _ (
            request_for-OnlyPiece c i total d (record w { active_download = some d })
              (working q (a, e) l)))
    ]
