-- ===== src/Download/Worker.antt =====
-- src/download/worker.rs: the handler that downloads one piece after another from a peer. The queue
-- and the output file are shared with other workers. What the worker does not implement is an
-- argument: SHA-1, whether a send and a write succeed, and what the other threads do to the queue
-- while a `pop` waits. Machine arithmetic wraps as in a release build, which is what the project's
-- scripts make.
pub mod Length
pub mod Ledger
pub mod Callbacks
pub mod Settlement
pub mod Returns
pub mod Integrity
pub mod Requests
pub mod Assembly
pub mod Composed
pub mod Single
use codecrafters_bittorrent.Prelude.{
  ℕ, zero, suc, ◌+◌, ◌-◌, ◌*◌, ◌/◌, ◌%◌, ◌^◌, min, Bool, true, false, not, ◌&&◌, ◌||◌, List, [],
  ◌∷◌, ◌++◌, Bytes, length, take, drop, replicate, Option, none, some, Result, ok, err, leb, ltb,
  ◌==◌, list_eq, if◌then◌else◌,
}
use codecrafters_bittorrent.Utils.Words.{u32_mod}
use codecrafters_bittorrent.Peer.Connection.{PeerCommand, PeerEvent}
use codecrafters_bittorrent.Peer.Connection.Handshake.{PeerConnection}
use codecrafters_bittorrent.Peer.Session.{
  SessionControl, continue, reconnect, stop, PeerSessionHandler,
}
use codecrafters_bittorrent.Torrent.Metainfo.{TorrentMetainfo, get_piece_hash_bytes}
use codecrafters_bittorrent.Download.Queue
use codecrafters_bittorrent.Download.Queue.{PieceQueue, Popped, piece, closed, parked}

abbrev pub u64_mod : ℕ
u64_mod = 2 ^ 64

pub record DownloadState : Type 0 where
  pub index : ℕ
  pub offset : ℕ
  pub length : ℕ
  pub buffer : Bytes

-- What stays as it is while the worker runs.
pub record Setting : Type 0 where
  pub metainfo : TorrentMetainfo
  pub base_piece_index : ℕ
  pub sha1 : Bytes → Bytes
  -- by what was sent before, and the command
  pub sends : List PeerCommand → PeerCommand → Bool
  -- by the piece and its bytes: `some n` where the write fails after `n` bytes
  pub write_fails : ℕ → Bytes → Option ℕ
  -- what has become of the queue when a `pop` that found nothing wakes up for good
  pub await : PieceQueue → PieceQueue

-- What changes: the shared queue and file, the piece in hand, and what the connection was sent, latest
-- first.
pub record PeerWorker : Type 0 where
  pub queue : PieceQueue
  pub output_file : Bytes
  pub active_download : Option DownloadState
  pub sent : List PeerCommand

-- `blocked` is no error of the code: the call waits in `pop` and does not return.
pub data WorkerError : Type 0 where
  send_failed persist_failed overrun panicked blocked : WorkerError
  hash_mismatch : ℕ → WorkerError

abbrev pub M : Type 0 → Type 0
M A = PeerWorker → Result WorkerError A × PeerWorker

abbrev pub bind_result :
    {A B : Type 0}
    → Result WorkerError A × PeerWorker
    → (A → M B)
    → Result WorkerError B × PeerWorker
bind_result (ok a, w) f = f a w
bind_result (err e, w) f = (err e, w)

infixl 5 ◌>>=◌ ◌>>◌
abbrev pub ◌>>=◌ : {A B : Type 0} → M A → (A → M B) → M B
◌>>=◌ m f w = bind_result (m w) f

abbrev pub ◌>>◌ : {B : Type 0} → M (Unit {0}) → M B → M B
m >> k = m >>= λ _. k

abbrev pub pure : {A : Type 0} → A → M A
pure a w = (ok a, w)

abbrev pub fail : {A : Type 0} → WorkerError → M A
fail e w = (err e, w)

-- Bytes written at an offset; a file that is too short is filled up with zeros, unless there is nothing to
-- write.
unfoldable pub write_at : Bytes → ℕ → Bytes → Bytes
write_at file offset [] = file
write_at file offset (b ∷ bytes) =
    let block = b ∷ bytes in
    take offset (file ++ replicate (offset - length file) 0)
    ++ (block ++ drop (offset + length block) file)

unfoldable pub get_piece_len : TorrentMetainfo → ℕ → Result WorkerError ℕ
get_piece_len m piece_index =
    if m.piece_length == 0
    then err panicked
    else (let sum = ((m.length + m.piece_length) % u64_mod + u64_mod - 1) % u64_mod in
        let num_pieces = sum / m.piece_length in
        let rem = m.length % m.piece_length in
        let current =
          if piece_index == (num_pieces + u64_mod - 1) % u64_mod
          then if rem == 0 then m.piece_length else rem
          else m.piece_length in
        ok (current % u32_mod))

module _ (c : Setting) where
  unfoldable pub send : PeerCommand → M (Unit {0})
  send cmd w =
      if c.sends w.sent cmd then (ok tt, record w { sent = cmd ∷ w.sent }) else (err send_failed, w)

  unfoldable pub persist_piece : ℕ → Bytes → M (Unit {0})
  persist_piece piece_index block w =
      let offset_index = piece_index - c.base_piece_index in
      let offset = (offset_index * c.metainfo.piece_length) % u64_mod in
      elim (c.write_fails piece_index block) [
        | none ↦ (ok tt, record w { output_file = write_at w.output_file offset block })
        | some zero ↦ (err persist_failed, w)
        | some (suc n) ↦ (
          err persist_failed,
          record w { output_file = write_at w.output_file offset (take (suc n) block) },
        )
      ]

  unfoldable pub request_for : DownloadState → M (Unit {0})
  unfolding send
  request_for d =
      if leb d.length d.offset
      then pure tt
      else send (PeerCommand.request d.index d.offset (min (2 ^ 14) (d.length - d.offset)))

  unfoldable pub send_next_request : M (Unit {0})
  send_next_request w = elim w.active_download [ none ↦ (ok tt, w) | some d ↦ request_for d w ]

  -- `queue.pop()`: `none` when the queue is finished.
  unfoldable pub popped :
      PeerWorker → PieceQueue × Popped → Result WorkerError (Option ℕ) × PeerWorker
  popped w (q, piece i) = (ok (some i), record w { queue = q })
  popped w (q, closed) = (ok none, record w { queue = q })
  popped w (q, parked) = (err blocked, record w { queue = q })

  unfoldable pub popped_or_wait :
      PeerWorker → PieceQueue × Popped → Result WorkerError (Option ℕ) × PeerWorker
  unfolding popped
  popped_or_wait w (q, piece i) = popped w (q, piece i)
  popped_or_wait w (q, closed) = popped w (q, closed)
  popped_or_wait w (q, parked) = popped w (Queue.pop (c.await q))

  unfoldable pub pop : M (Option ℕ)
  pop w = popped_or_wait w (Queue.pop w.queue)

  unfoldable pub of_length : Result WorkerError ℕ → M ℕ
  of_length r w = (r, w)

  -- The body of the `while let` of `start_next_piece`, which returns.
  unfoldable pub begin_piece : Option ℕ → M (Unit {0})
  unfolding of_length send_next_request
  begin_piece none = pure tt
  begin_piece (some piece_index) = do
    piece_len ← of_length (get_piece_len c.metainfo piece_index)
    (λ w. (
      ok tt,
      record w {
        active_download = some (record {
          index = piece_index;
          offset = 0;
          length = piece_len;
          buffer = replicate piece_len 0;
        });
      },
    ))
    send_next_request

  unfoldable pub start_next_piece : M (Unit {0})
  unfolding pop
  start_next_piece w = if Queue.is_shutdown w.queue then (ok tt, w) else (pop >>= begin_piece) w

unfoldable pub abandon_active_piece : M (Unit {0})
abandon_active_piece w = elim w.active_download [
  | none ↦ (ok tt, w)
  | some d ↦ (ok tt, record w { queue = Queue.push w.queue d.index; active_download = none })
]

-- `buffer[begin..end].copy_from_slice(&data)`, which panics where the two differ in length.
unfoldable pub copy_block : DownloadState → ℕ → ℕ → Bytes → Result WorkerError DownloadState
copy_block d begin end block =
    if leb begin end && (end - begin == length block)
    then ok (record d {
      buffer = take begin d.buffer ++ (block ++ drop end d.buffer);
      offset = (d.offset + length block % u32_mod) % u32_mod;
    })
    else err panicked

module _ (c : Setting) where
  unfoldable pub with_control :
      Result WorkerError (Unit {0}) × PeerWorker
      → SessionControl
      → Result WorkerError SessionControl × PeerWorker
  with_control r control = bind_result r (λ _. pure control)

  -- What follows a completed piece.
  unfoldable pub next_or_stop : M SessionControl
  next_or_stop w =
      if Queue.is_shutdown w.queue
      then (ok stop, w)
      else with_control (start_next_piece c w) continue

  -- A full buffer, already taken out of the worker.
  unfoldable pub complete_piece : DownloadState → M SessionControl
  unfolding persist_piece
  complete_piece d = do
    persist_piece c d.index d.buffer
    (λ w. (ok tt, record w { queue = Queue.mark_completed w.queue }))
    next_or_stop

  unfoldable pub reject_piece : DownloadState → M SessionControl
  reject_piece d w = (err (hash_mismatch d.index), record w { queue = Queue.push w.queue d.index })

  unfoldable pub finish_piece : DownloadState → M SessionControl
  finish_piece d w = elim (get_piece_hash_bytes c.metainfo d.index) [
    | err e ↦ (err panicked, w)
    | ok expected ↦
        if not (list_eq expected (c.sha1 d.buffer)) then reject_piece d w else complete_piece d w
  ]

  -- The block is in the buffer.
  unfoldable pub advance : DownloadState → M SessionControl
  advance d w =
      if leb d.length d.offset
      then finish_piece d (record w { active_download = none })
      else with_control (request_for c d (record w { active_download = some d })) continue

  unfoldable pub store_block : Result WorkerError DownloadState → M SessionControl
  store_block (ok d) = advance d
  store_block (err e) = fail e

  unfoldable pub receive_block : DownloadState → ℕ → ℕ → Bytes → M SessionControl
  receive_block d index begin block w =
      let end = (begin + length block % u32_mod) % u32_mod in
      if not (d.index == index) || not (d.offset == begin)
      then (ok continue, w)
      else if ltb (length d.buffer) end
      then bind_result (abandon_active_piece w) (λ _. fail overrun)
      else store_block (copy_block d begin end block) w

  unfoldable pub handle_piece_event : ℕ → ℕ → Bytes → M SessionControl
  handle_piece_event index begin block w = elim w.active_download [
    | none ↦ (ok continue, w)
    | some d ↦ receive_block d index begin block w
  ]

  unfoldable pub on_connect : M SessionControl
  on_connect = do abandon_active_piece; send c PeerCommand.interested; pure continue

  unfoldable pub is_active : PeerWorker → Bool
  is_active w = elim w.active_download [ none ↦ false | some d ↦ true ]

  unfoldable pub resume : M (Unit {0})
  resume w = elim w.active_download [ some d ↦ request_for c d w | none ↦ start_next_piece c w ]

  unfoldable pub stop_if_done : M SessionControl
  stop_if_done w =
      if Queue.is_shutdown w.queue && not (is_active w) then (ok stop, w) else (ok continue, w)

  unfoldable pub on_unchoke : M SessionControl
  on_unchoke w = bind_result (resume w) (λ _. stop_if_done)

  unfoldable pub reconnecting : M SessionControl
  reconnecting = do abandon_active_piece; pure reconnect

  unfoldable pub on_event : PeerEvent → M SessionControl
  on_event PeerEvent.choke = reconnecting
  on_event PeerEvent.unchoke = on_unchoke
  on_event (PeerEvent.piece index begin block) = handle_piece_event index begin block
  on_event PeerEvent.io_error = reconnecting
  on_event _ = pure continue

  unfoldable pub should_stop : PeerWorker → Bool
  should_stop w = Queue.is_shutdown w.queue

  unfoldable pub handler : PeerSessionHandler WorkerError PeerWorker
  unfolding on_connect on_event should_stop
  handler = record {
    on_connect = λ conn. on_connect;
    on_event = λ conn. on_event;
    should_stop = should_stop;
  }
