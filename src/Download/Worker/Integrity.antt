-- ===== src/Download/Worker/Integrity.antt =====
-- What src/download/worker.rs writes to the output file.
use codecrafters_bittorrent.Prelude.{
  ℕ, zero, suc, take, ◌+◌, ◌-◌, ◌*◌, ◌%◌, ◌≡◌, refl, ap, ◌∙◌, inl, inr, not, ◌||◌, List, Bytes,
  length, Option, none, some, Result, ok, err, leb, ltb, ◌==◌, list_eq, list_eq→eq, Bool-cases,
  Option-cases, Result-cases, arith,
}
use codecrafters_bittorrent.Peer.Connection.{PeerCommand, PeerEvent}
use codecrafters_bittorrent.Peer.Session.{SessionControl, continue, reconnect}
use codecrafters_bittorrent.Utils.Words.{u32_mod}
use codecrafters_bittorrent.Torrent.Metainfo.{get_piece_hash_bytes}
use codecrafters_bittorrent.Download.Queue
use codecrafters_bittorrent.Download.Queue.{PieceQueue, Popped, piece, closed, parked}
use codecrafters_bittorrent.Download.Worker.{
  DownloadState, Setting, PeerWorker, WorkerError, persist_failed, u64_mod, write_at, bind_result,
  get_piece_len, persist_piece, request_for, popped, popped_or_wait, begin_piece, start_next_piece,
  abandon_active_piece, with_control, next_or_stop, complete_piece, reject_piece, finish_piece,
  advance, store_block, receive_block, handle_piece_event, resume, stop_if_done, on_unchoke,
  reconnecting, on_event,
}

module _ (c : Setting) where
  -- The hash of the bytes is the one of the piece.
  abbrev pub IsVerified : ℕ → Bytes → Type 0
  IsVerified index bytes = get_piece_hash_bytes c.metainfo index ≡ ok (c.sha1 bytes)

  abbrev pub offset_of : ℕ → ℕ
  offset_of index = ((index - c.base_piece_index) * c.metainfo.piece_length) % u64_mod

  -- What a call did to the file: nothing, one verified piece was written, or the write of a verified
  -- piece failed after some bytes.
  pub data IsSound {A : Type 0} (before : Bytes) (r : Result WorkerError A × PeerWorker)
      : Type 0 where
    untouched : r.1.output_file ≡ before → IsSound before r
    wrote :
        (index : ℕ) (bytes : Bytes)
        → IsVerified index bytes
        → r.1.output_file ≡ write_at before (offset_of index) bytes
        → IsSound before r
    cut :
        (index n : ℕ) (bytes : Bytes)
        → r.0 ≡ err persist_failed
        → IsVerified index bytes
        → r.1.output_file ≡ write_at before (offset_of index) (take n bytes)
        → IsSound before r

  pub request_for-file :
      (d : DownloadState) (w : PeerWorker) → (request_for c d w).1.output_file ≡ w.output_file
  unfolding request_for
  request_for-file d w = ground arith

  begin_piece-file :
      (o : Option ℕ) (w : PeerWorker) → (begin_piece c o w).1.output_file ≡ w.output_file
  unfolding begin_piece
  begin_piece-file none w = refl
  begin_piece-file (some i) w = elim (Result-cases (get_piece_len c.metainfo i)) [
    | inl (n, e) ↦ rw (e, begin_piece) (request_for-file _ _)
    | inr (x, e) ↦ rw (e, begin_piece) refl
  ]

  popped-file :
      (w : PeerWorker) (r : PieceQueue × Popped)
      → (bind_result (popped c w r) (begin_piece c)).1.output_file ≡ w.output_file
  unfolding popped
  popped-file w (q, piece i) = begin_piece-file (some i) _
  popped-file w (q, closed) = begin_piece-file none _
  popped-file w (q, parked) = refl

  popped_or_wait-file :
      (w : PeerWorker) (r : PieceQueue × Popped)
      → (bind_result (popped_or_wait c w r) (begin_piece c)).1.output_file ≡ w.output_file
  unfolding popped_or_wait
  popped_or_wait-file w (q, piece i) = begin_piece-file (some i) _
  popped_or_wait-file w (q, closed) = begin_piece-file none _
  popped_or_wait-file w (q, parked) = popped-file w (Queue.pop (c.await q))

  pub start_next_piece-file :
      (w : PeerWorker) → (start_next_piece c w).1.output_file ≡ w.output_file
  unfolding start_next_piece
  start_next_piece-file w = elim (Bool-cases (Queue.is_shutdown w.queue)) [
    | inl b ↦ rw b refl
    | inr b ↦ rw b (popped_or_wait-file w (Queue.pop w.queue))
  ]

  pub with_control-file :
      (r : Result WorkerError (Unit {0}) × PeerWorker) (control : SessionControl)
      → (with_control c r control).1.output_file ≡ r.1.output_file
  unfolding with_control
  with_control-file (ok u, w) control = refl
  with_control-file (err x, w) control = refl

  pub next_or_stop-file : (w : PeerWorker) → (next_or_stop c w).1.output_file ≡ w.output_file
  unfolding next_or_stop
  next_or_stop-file w = elim (Bool-cases (Queue.is_shutdown w.queue)) [
    | inl b ↦ rw b refl
    | inr b ↦ rw b (with_control-file _ continue ∙ start_next_piece-file w)
  ]

  complete_piece-IsSound :
      (d : DownloadState) (w : PeerWorker)
      → get_piece_hash_bytes c.metainfo d.index ≡ ok (c.sha1 d.buffer)
      → IsSound w.output_file (complete_piece c d w)
  unfolding complete_piece
  complete_piece-IsSound d w e = elim (Option-cases (c.write_fails d.index d.buffer)) [
    | inl b ↦ rw (b, persist_piece) (wrote d.index d.buffer e (next_or_stop-file _))
    | inr (zero, b) ↦ rw (b, persist_piece) (untouched refl)
    | inr (suc n, b) ↦ rw (b, persist_piece) (cut d.index (suc n) d.buffer refl e refl)
  ]

  finish_piece-IsSound :
      (d : DownloadState) (w : PeerWorker) → IsSound w.output_file (finish_piece c d w)
  unfolding finish_piece
  finish_piece-IsSound d w = elim (Result-cases (get_piece_hash_bytes c.metainfo d.index)) [
    | inr (x, e) ↦ rw (e, finish_piece) (untouched refl)
    | inl (expected, e) ↦ elim (Bool-cases (list_eq expected (c.sha1 d.buffer))) [
      | inl same ↦
          rw (e, same, finish_piece)
            (complete_piece-IsSound d w (e ∙ ap ok (list_eq→eq expected (c.sha1 d.buffer) same)))
      | inr differs ↦ rw (e, differs, finish_piece) (unfold reject_piece in untouched refl)
    ]
  ]

  advance-IsSound : (d : DownloadState) (w : PeerWorker) → IsSound w.output_file (advance c d w)
  unfolding advance
  advance-IsSound d w = elim (Bool-cases (leb d.length d.offset)) [
    | inl full ↦ rw full (finish_piece-IsSound d (record w { active_download = none }))
    | inr partial ↦ rw partial (
        untouched (
          with_control-file _ continue
          ∙ request_for-file d (record w { active_download = some d })))
  ]

  pub after_abandon-file :
      {A : Type 0} (w : PeerWorker) (k : Result WorkerError A)
      → (bind_result (abandon_active_piece w) (λ u w'. (k, w'))).1.output_file ≡ w.output_file
  unfolding abandon_active_piece
  after_abandon-file w k = ground arith

  store_block-IsSound :
      (r : Result WorkerError DownloadState) (w : PeerWorker)
      → IsSound w.output_file (store_block c r w)
  unfolding store_block
  store_block-IsSound (ok d) w = advance-IsSound d w
  store_block-IsSound (err x) w = untouched refl

  receive_block-IsSound :
      (d : DownloadState) (index begin : ℕ) (block : Bytes) (w : PeerWorker)
      → IsSound w.output_file (receive_block c d index begin block w)
  unfolding receive_block
  receive_block-IsSound d index begin block w =
      let end = (begin + length block % u32_mod) % u32_mod in
      elim (Bool-cases (not (d.index == index) || not (d.offset == begin))) [
        | inl other ↦ rw other (untouched refl)
        | inr ours ↦ elim (Bool-cases (ltb (length d.buffer) end)) [
          | inl over ↦ rw (ours, over) (untouched (after_abandon-file w (err WorkerError.overrun)))
          | inr fits ↦ rw (ours, fits) (store_block-IsSound _ w)
        ]
      ]

  handle_piece_event-IsSound :
      (o : Option DownloadState) (q : PieceQueue) (file : Bytes) (sent : List PeerCommand)
      (index begin : ℕ) (block : Bytes)
      → IsSound file (
          handle_piece_event c index begin block
            (record { queue = q; output_file = file; active_download = o; sent = sent }))
  unfolding handle_piece_event
  handle_piece_event-IsSound none q file sent index begin block = untouched refl
  handle_piece_event-IsSound (some d) q file sent index begin block =
      receive_block-IsSound d index begin block _

  pub resume-file :
      (o : Option DownloadState) (q : PieceQueue) (file : Bytes) (sent : List PeerCommand)
      → (resume c (record {
        queue = q;
        output_file = file;
        active_download = o;
        sent = sent;
      })).1.output_file
        ≡ file
  unfolding resume
  resume-file none q file sent = start_next_piece-file _
  resume-file (some d) q file sent = request_for-file d _

  pub after_resume-file :
      (r : Result WorkerError (Unit {0}) × PeerWorker)
      → (bind_result r (λ _. stop_if_done c)).1.output_file ≡ r.1.output_file
  unfolding stop_if_done
  after_resume-file (ok u, w) = ground arith
  after_resume-file (err x, w) = refl

  -- The output file after an event is the file before it, or that file with one piece at the piece's
  -- offset whose SHA-1 is the metainfo's hash for it, or with only the first bytes of such a piece, in
  -- which case the call reports a failed write.
  pub on_event-IsSound : (e : PeerEvent) (w : PeerWorker) → IsSound w.output_file (on_event c e w)
  unfolding on_event
  on_event-IsSound PeerEvent.choke w =
      unfold reconnecting in untouched (after_abandon-file w (ok reconnect))
  on_event-IsSound PeerEvent.unchoke w =
      unfold on_unchoke in
      untouched (
        after_resume-file (resume c w) ∙ resume-file w.active_download w.queue w.output_file w.sent)
  on_event-IsSound (PeerEvent.piece index begin block) w =
      handle_piece_event-IsSound w.active_download w.queue w.output_file w.sent index begin block
  on_event-IsSound PeerEvent.io_error w =
      unfold reconnecting in untouched (after_abandon-file w (ok reconnect))
  on_event-IsSound e w = untouched refl
