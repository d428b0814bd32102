-- ===== src/Download/Worker/Requests.antt =====
-- What src/download/worker.rs asks its peer for, and the buffer that it fills.
use codecrafters_bittorrent.Prelude.{
  ℕ, zero, suc, ◌+◌, ◌%◌, ◌^◌, ◌<◌, ◌≤◌, ◌≡◌, replicate, length-replicate, inl, inr, All, length,
  Option, none, some, Result, ok, err, leb, ◌==◌, list_eq, Bool-cases, Option-cases, Result-cases,
  arith,
}
use codecrafters_bittorrent.Utils.Words.{u32_mod}
use codecrafters_bittorrent.Peer.Connection.{PeerCommand}
use codecrafters_bittorrent.Peer.Session.{SessionControl, continue}
use codecrafters_bittorrent.Torrent.Metainfo.{TorrentMetainfo, get_piece_hash_bytes}
use codecrafters_bittorrent.Download.Queue
use codecrafters_bittorrent.Download.Queue.{PieceQueue, Popped, piece, closed, parked}
use codecrafters_bittorrent.Download.Worker.{
  DownloadState, Setting, PeerWorker, WorkerError, bind_result, get_piece_len, send, persist_piece,
  request_for, popped, popped_or_wait, begin_piece, start_next_piece, with_control, next_or_stop,
  complete_piece, reject_piece, finish_piece, advance,
}

module _ (c : Setting) where
  -- A piece in hand: its length is the piece's, so is the buffer's, and the offset is inside.
  pub record IsActive (d : DownloadState) : Type 0 where
    pub whole : get_piece_len c.metainfo d.index ≡ ok d.length
    pub filled : length d.buffer ≡ d.length
    pub inside : d.offset ≤ d.length
    pub small : d.length < u32_mod

  -- A request is for at most 16 KiB inside a piece.
  abbrev pub InPiece : PeerCommand → Type 0
  InPiece (PeerCommand.request index begin size) =
      (total : ℕ) × (get_piece_len c.metainfo index ≡ ok total)
      × (0 < size)
      × (size ≤ 2 ^ 14)
      × (begin + size ≤ total)
  InPiece _ = Unit

  abbrev pub HandOk : Option DownloadState → Type 0
  HandOk none = Unit
  HandOk (some d) = IsActive d

  pub record IsWellFormed (w : PeerWorker) : Type 0 where
    pub hand : HandOk w.active_download
    pub requests : All InPiece w.sent

  pub send-IsWellFormed :
      (cmd : PeerCommand) (w : PeerWorker)
      → InPiece cmd
      → IsWellFormed w
      → IsWellFormed (send c cmd w).1
  unfolding send
  send-IsWellFormed cmd w fits h = elim (Bool-cases (c.sends w.sent cmd)) [
    | inl b ↦ rw b (record { hand = h.hand; requests = (fits, h.requests) })
    | inr b ↦ rw b h
  ]

  pub request_for-IsWellFormed :
      (d : DownloadState) (w : PeerWorker)
      → IsActive d
      → IsWellFormed w
      → IsWellFormed (request_for c d w).1
  unfolding request_for
  request_for-IsWellFormed d w a h = elim (Bool-cases (leb d.length d.offset)) [
    | inl b ↦ rw b h
    | inr b ↦ rw b (
        send-IsWellFormed _ w
          (d.length, a.whole, ground arith, omega arith, ground (arith, a.inside)) h)
  ]

  remainder_lt : (x n : ℕ) → ◌≡◌ {A = Result WorkerError ℕ} (ok (x % u32_mod)) (ok n) → n < u32_mod
  remainder_lt x n e = ground arith

  pub get_piece_len-lt : (m : TorrentMetainfo) (i n : ℕ) → get_piece_len m i ≡ ok n → n < u32_mod
  unfolding get_piece_len
  get_piece_len-lt m i n e = elim (Bool-cases (m.piece_length == 0)) [
    | inl b ↦ absurd (cc (rw b at e))
    | inr b ↦ remainder_lt _ n (rw b at e)
  ]

  begin_piece-IsWellFormed :
      (o : Option ℕ) (w : PeerWorker) → IsWellFormed w → IsWellFormed (begin_piece c o w).1
  unfolding begin_piece
  begin_piece-IsWellFormed none w h = h
  begin_piece-IsWellFormed (some i) w h = elim (Result-cases (get_piece_len c.metainfo i)) [
    | inr (x, e) ↦ rw (e, begin_piece) h
    | inl (n, e) ↦
        let a : IsActive (record { index = i; offset = 0; length = n; buffer = replicate n 0 }) =
          record {
            whole = e;
            filled = length-replicate n 0;
            inside = omega arith;
            small = get_piece_len-lt c.metainfo i n e;
          } in
        rw (e, begin_piece)
          (request_for-IsWellFormed _ _ a (record { hand = a; requests = h.requests }))
  ]

  popped-IsWellFormed :
      (w : PeerWorker) (r : PieceQueue × Popped)
      → IsWellFormed w
      → IsWellFormed (bind_result (popped c w r) (begin_piece c)).1
  unfolding popped
  popped-IsWellFormed w (q, piece i) h =
      begin_piece-IsWellFormed (some i) _ (record { hand = h.hand; requests = h.requests })
  popped-IsWellFormed w (q, closed) h =
      begin_piece-IsWellFormed none _ (record { hand = h.hand; requests = h.requests })
  popped-IsWellFormed w (q, parked) h = record { hand = h.hand; requests = h.requests }

  popped_or_wait-IsWellFormed :
      (w : PeerWorker) (r : PieceQueue × Popped)
      → IsWellFormed w
      → IsWellFormed (bind_result (popped_or_wait c w r) (begin_piece c)).1
  unfolding popped_or_wait
  popped_or_wait-IsWellFormed w (q, piece i) h = popped-IsWellFormed w (q, piece i) h
  popped_or_wait-IsWellFormed w (q, closed) h = popped-IsWellFormed w (q, closed) h
  popped_or_wait-IsWellFormed w (q, parked) h = popped-IsWellFormed w (Queue.pop (c.await q)) h

  pub start_next_piece-IsWellFormed :
      (w : PeerWorker) → IsWellFormed w → IsWellFormed (start_next_piece c w).1
  unfolding start_next_piece
  start_next_piece-IsWellFormed w h = elim (Bool-cases (Queue.is_shutdown w.queue)) [
    | inl b ↦ rw b h
    | inr b ↦ rw b (popped_or_wait-IsWellFormed w (Queue.pop w.queue) h)
  ]

  with_control-IsWellFormed :
      (r : Result WorkerError (Unit {0}) × PeerWorker) (control : SessionControl)
      → IsWellFormed r.1
      → IsWellFormed (with_control c r control).1
  unfolding with_control
  with_control-IsWellFormed (ok u, w) control h = h
  with_control-IsWellFormed (err x, w) control h = h

  next_or_stop-IsWellFormed : (w : PeerWorker) → IsWellFormed w → IsWellFormed (next_or_stop c w).1
  unfolding next_or_stop
  next_or_stop-IsWellFormed w h = elim (Bool-cases (Queue.is_shutdown w.queue)) [
    | inl b ↦ rw b h
    | inr b ↦ rw b (with_control-IsWellFormed _ continue (start_next_piece-IsWellFormed w h))
  ]

  complete_piece-IsWellFormed :
      (d : DownloadState) (w : PeerWorker) → IsWellFormed w → IsWellFormed (complete_piece c d w).1
  unfolding complete_piece
  complete_piece-IsWellFormed d w h = elim (Option-cases (c.write_fails d.index d.buffer)) [
    | inl b ↦
        rw (b, persist_piece)
          (next_or_stop-IsWellFormed _ (record { hand = h.hand; requests = h.requests }))
    | inr (zero, b) ↦ rw (b, persist_piece) h
    | inr (suc n, b) ↦ rw (b, persist_piece) (record { hand = h.hand; requests = h.requests })
  ]

  finish_piece-IsWellFormed :
      (d : DownloadState) (w : PeerWorker) → IsWellFormed w → IsWellFormed (finish_piece c d w).1
  unfolding finish_piece
  finish_piece-IsWellFormed d w h = elim (Result-cases (get_piece_hash_bytes c.metainfo d.index)) [
    | inr (x, e) ↦ rw (e, finish_piece) h
    | inl (expected, e) ↦ elim (Bool-cases (list_eq expected (c.sha1 d.buffer))) [
      | inl same ↦ rw (e, same, finish_piece) (complete_piece-IsWellFormed d w h)
      | inr differs ↦
          rw (e, differs, finish_piece)
            (unfold reject_piece in record { hand = h.hand; requests = h.requests })
    ]
  ]

  pub advance-IsWellFormed :
      (d : DownloadState) (w : PeerWorker)
      → IsActive d
      → IsWellFormed w
      → IsWellFormed (advance c d w).1
  unfolding advance
  advance-IsWellFormed d w a h = elim (Bool-cases (leb d.length d.offset)) [
    | inl full ↦ rw full (
        finish_piece-IsWellFormed d (record w { active_download = none })
          (record { hand = tt; requests = h.requests }))
    | inr partial ↦ rw partial (
        with_control-IsWellFormed _ continue (
          request_for-IsWellFormed d (record w { active_download = some d }) a
            (record { hand = a; requests = h.requests })))
  ]
