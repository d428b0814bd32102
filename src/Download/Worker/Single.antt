-- ===== src/Download/Worker/Single.antt =====
-- A worker of src/download/worker.rs that is alone with a queue of one piece, as src/main.rs starts it.
pub mod Pieces
pub mod Finish
pub mod Events
use codecrafters_bittorrent.Prelude.{
  ℕ, zero, suc, ◌+◌, ◌-◌, ◌*◌, ◌%◌, ◌≤◌, ◌<◌, ◌≡◌, ◌≢◌, refl, sym, ap, ◌∙◌, subst, inl, inr, not,
  ◌&&◌, ◌||◌, List, [], ◌∷◌, ◌++◌, Bytes, All, All-append, Bool, true, false, length, take, drop,
  length-append, length-take, length-drop, replicate, Option, none, some, Result, ok, err, leb, ltb,
  ◌==◌, list_eq, list_eq→eq, Bool-cases, Option-cases, Result-cases, arith, append-nil,
}
use codecrafters_bittorrent.Utils.Words.{u32_mod}
use codecrafters_bittorrent.Peer.Connection.{PeerCommand, PeerEvent}
use codecrafters_bittorrent.Peer.Session.{SessionControl, continue, reconnect, stop}
use codecrafters_bittorrent.Torrent.Metainfo.{get_piece_hash_bytes}
use codecrafters_bittorrent.Download.Queue
use codecrafters_bittorrent.Download.Queue.{PieceQueue}
use codecrafters_bittorrent.Download.Worker.{
  DownloadState, Setting, PeerWorker, WorkerError, u64_mod, write_at, bind_result, get_piece_len,
  send, persist_piece, request_for,
}
use codecrafters_bittorrent.Download.Worker.Integrity.{IsVerified}
use codecrafters_bittorrent.Download.Worker.Requests.{IsActive}

-- The queue before its piece is completed.
pub record IsOpen (i : ℕ) (q : PieceQueue) : Type 0 where
  pub one_piece : q.total_pieces ≡ 1
  pub not_finished : q.finished ≡ false
  pub none_completed : q.completed ≡ 0
  pub only : All (λ j. j ≡ i) q.queue

abbrev pub HandIs : Setting → ℕ → Option DownloadState → Type 0
HandIs c i none = Unit
HandIs c i (some d) = IsActive c d × (d.index ≡ i)

-- The worker works on the piece, in a file that is no longer than the piece, or the file is the piece, with
-- the hash of the metainfo, and the queue is finished.
pub data OnlyPiece (c : Setting) (i total : ℕ) (w : PeerWorker) : Type 0 where
  working :
      IsOpen i w.queue
      → HandIs c i w.active_download
      → length w.output_file ≤ total
      → OnlyPiece c i total w
  saved :
      w.queue.finished ≡ true
      → w.active_download ≡ none
      → IsVerified c i w.output_file
      → length w.output_file ≡ total
      → OnlyPiece c i total w

-- What a call leaves; it stops the session only with the piece saved.
pub record Kept (c : Setting) (i total : ℕ) (r : Result WorkerError SessionControl × PeerWorker)
    : Type 0 where
  pub only : OnlyPiece c i total r.1
  pub stops_saved : r.0 ≡ ok stop → r.1.queue.finished ≡ true

drop_past : (n : ℕ) (xs : Bytes) → length xs ≤ n → drop n xs ≡ []
drop_past zero [] h = refl
drop_past zero (x ∷ xs) h = absurd (omega arith)
drop_past (suc n) [] h = refl
drop_past (suc n) (x ∷ xs) h = drop_past n xs (omega arith)

pub write_at_start :
    (file block : Bytes) → length file ≤ length block → write_at file 0 block ≡ block
unfolding write_at
write_at_start [] [] h = refl
write_at_start (x ∷ file) [] h = absurd (omega arith)
write_at_start file (b ∷ bytes) h =
    let block = b ∷ bytes in
    ap (λ rest. block ++ rest) (drop_past (0 + length block) file (omega arith)) ∙ append-nil block

pub length-write_at_start :
    (file block : Bytes) (total : ℕ)
    → length file ≤ total
    → length block ≤ total
    → length (write_at file 0 block) ≤ total
unfolding write_at
length-write_at_start file [] total h k = h
length-write_at_start file (b ∷ bytes) total h k =
    let block = b ∷ bytes in
    omega (
      arith,
      length-append block (drop (0 + length block) file),
      length-drop (0 + length block) file,
    )

module _ (c : Setting) (i total : ℕ) where
  pub send-OnlyPiece :
      (cmd : PeerCommand) (w : PeerWorker)
      → OnlyPiece c i total w
      → OnlyPiece c i total (send c cmd w).1
  unfolding send
  send-OnlyPiece cmd w h = elim (Bool-cases (c.sends w.sent cmd)) [
    | inl b ↦ rw b (resent h)
    | inr b ↦ rw b h
  ]
    where
      resent : OnlyPiece c i total w → OnlyPiece c i total (record w { sent = cmd ∷ w.sent })
      resent (working q a l) = working q a l
      resent (saved f a v n) = saved f a v n

  pub request_for-OnlyPiece :
      (d : DownloadState) (w : PeerWorker)
      → OnlyPiece c i total w
      → OnlyPiece c i total (request_for c d w).1
  unfolding request_for
  request_for-OnlyPiece d w h = elim (Bool-cases (leb d.length d.offset)) [
    | inl b ↦ rw b h
    | inr b ↦ rw b (send-OnlyPiece _ w h)
  ]
