-- ===== src/Download/Worker/Single/Pieces.antt =====
-- The callbacks of a worker of src/download/worker.rs that is alone with a queue of one piece.
use codecrafters_bittorrent.Prelude.{
  ℕ, ◌≤◌, ◌≡◌, refl, sym, ap, ◌∙◌, subst, inl, inr, List, [], ◌∷◌, Bytes, All, All-append, false,
  length, Option, none, some, ok, length-replicate, replicate, Bool-cases, arith,
}
use codecrafters_bittorrent.Peer.Connection.{PeerCommand}
use codecrafters_bittorrent.Download.Queue
use codecrafters_bittorrent.Download.Queue.{PieceQueue, Popped, piece, closed, parked, pop_from}
use codecrafters_bittorrent.Download.Queue.Fleet.{pop-Took}
use codecrafters_bittorrent.Download.Worker.{
  DownloadState, Setting, PeerWorker, bind_result, get_piece_len, popped, popped_or_wait,
  begin_piece, start_next_piece, abandon_active_piece,
}
use codecrafters_bittorrent.Download.Worker.Requests.{IsActive, get_piece_len-lt}
use codecrafters_bittorrent.Download.Worker.Single.{
  IsOpen, HandIs, OnlyPiece, working, saved, request_for-OnlyPiece,
}

pub push-IsOpen : (i j : ℕ) (q : PieceQueue) → IsOpen i q → j ≡ i → IsOpen i (Queue.push q j)
unfolding Queue.push
push-IsOpen i j q h e =
    let f = h.not_finished in
    rw f (record {
      one_piece = h.one_piece;
      not_finished = refl;
      none_completed = h.none_completed;
      only = All-append (λ k. k ≡ i) q.queue (j ∷ []) h.only (e, tt);
    })

pop_from_open :
    (q q' : PieceQueue) (xs : List ℕ) → q.finished ≡ false → pop_from q xs ≡ (q', closed) → ⊥
unfolding pop_from
pop_from_open q q' [] f e = ground arith
pop_from_open q q' (x ∷ xs) f e = ground arith

pop_from_parked : (q q' : PieceQueue) (xs : List ℕ) → pop_from q xs ≡ (q', parked) → q' ≡ q
unfolding pop_from
pop_from_parked q q' [] e = ground arith
pop_from_parked q q' (x ∷ xs) e = ground arith

open_not_closed : (q q' : PieceQueue) → q.finished ≡ false → Queue.pop q ≡ (q', closed) → ⊥
unfolding Queue.pop
open_not_closed q q' f e = pop_from_open q q' q.queue f e

parked_same : (q q' : PieceQueue) → Queue.pop q ≡ (q', parked) → q' ≡ q
unfolding Queue.pop
parked_same q q' e = pop_from_parked q q' q.queue e

-- A piece is given back to the queue.
pub abandon-OnlyPiece :
    (c : Setting) (i total : ℕ) (w : PeerWorker)
    → OnlyPiece c i total w
    → OnlyPiece c i total (abandon_active_piece w).1 × ((abandon_active_piece w).0 ≡ ok tt)
unfolding abandon_active_piece
abandon-OnlyPiece c i total w h = by_hand w.active_download w.queue w.output_file w.sent h
  where
    by_hand :
        (o : Option DownloadState) (q : PieceQueue) (file : Bytes) (sent : List PeerCommand)
        → OnlyPiece c i total
            (record { queue = q; output_file = file; active_download = o; sent = sent })
        → let r =
            abandon_active_piece
              (record { queue = q; output_file = file; active_download = o; sent = sent }) in
          OnlyPiece c i total r.1 × (r.0 ≡ ok tt)
    by_hand none q file sent h = (h, refl)
    by_hand (some d) q file sent (working o a l) =
        (working (push-IsOpen i d.index q o a.1) tt l, refl)
    by_hand (some d) q file sent (saved f e v n) = cc

module _ (c : Setting) (i total : ℕ) (alone : (q : PieceQueue) → c.await q ≡ q)
    (whole : get_piece_len c.metainfo i ≡ ok total) where
  begin_piece-OnlyPiece :
      (j : ℕ) (w : PeerWorker)
      → j ≡ i
      → IsOpen i w.queue
      → length w.output_file ≤ total
      → OnlyPiece c i total (begin_piece c (some j) w).1
  unfolding begin_piece
  begin_piece-OnlyPiece j w e q l =
      let has : get_piece_len c.metainfo j ≡ ok total = ap (get_piece_len c.metainfo) e ∙ whole in
      let a : IsActive c
          (record { index = j; offset = 0; length = total; buffer = replicate total 0 }) =
        record {
          whole = has;
          filled = length-replicate total 0;
          inside = omega arith;
          small = get_piece_len-lt c c.metainfo j total has;
        } in
      rw (has, begin_piece) (request_for-OnlyPiece c i total _ _ (working q (a, e) l))

  popped-OnlyPiece :
      (w : PeerWorker) (r : PieceQueue × Popped)
      → IsOpen i w.queue
      → w.active_download ≡ none
      → length w.output_file ≤ total
      → Queue.pop w.queue ≡ r
      → OnlyPiece c i total (bind_result (popped c w r) (begin_piece c)).1
  unfolding popped
  popped-OnlyPiece w (q, piece j) h idle l e =
      let took = pop-Took w.queue q j e in
      let only : All (λ k. k ≡ i) (j ∷ q.queue) = subst (All (λ k. k ≡ i)) took.front h.only in
      begin_piece-OnlyPiece j (record w { queue = q }) only.0
        (record {
          one_piece = took.total_kept ∙ h.one_piece;
          not_finished = took.finished_kept ∙ h.not_finished;
          none_completed = took.completed_kept ∙ h.none_completed;
          only = only.1;
        })
        l
  popped-OnlyPiece w (q, closed) h idle l e = absurd (open_not_closed w.queue q h.not_finished e)
  popped-OnlyPiece w (q, parked) h idle l e =
      let same = parked_same w.queue q e in
      working (subst (IsOpen i) (sym same) h) (subst (HandIs c i) (sym idle) tt) l

  popped_or_wait-OnlyPiece :
      (w : PeerWorker) (r : PieceQueue × Popped)
      → IsOpen i w.queue
      → w.active_download ≡ none
      → length w.output_file ≤ total
      → Queue.pop w.queue ≡ r
      → OnlyPiece c i total (bind_result (popped_or_wait c w r) (begin_piece c)).1
  unfolding popped_or_wait
  popped_or_wait-OnlyPiece w (q, piece j) h idle l e = popped-OnlyPiece w (q, piece j) h idle l e
  popped_or_wait-OnlyPiece w (q, closed) h idle l e = popped-OnlyPiece w (q, closed) h idle l e
  popped_or_wait-OnlyPiece w (q, parked) h idle l e =
      let same = alone q ∙ parked_same w.queue q e in
      let again : Queue.pop w.queue ≡ Queue.pop (c.await q) = ap Queue.pop (sym same) in
      popped-OnlyPiece w (Queue.pop (c.await q)) h idle l again

  opened :
      (w : PeerWorker)
      → OnlyPiece c i total w
      → Queue.is_shutdown w.queue ≡ false
      → IsOpen i w.queue × (length w.output_file ≤ total)
  unfolding Queue.is_shutdown
  opened w (working q a l) b = (q, l)
  opened w (saved f e v n) b = cc

  pub start_next_piece-OnlyPiece :
      (w : PeerWorker)
      → OnlyPiece c i total w
      → w.active_download ≡ none
      → OnlyPiece c i total (start_next_piece c w).1
  unfolding start_next_piece
  start_next_piece-OnlyPiece w h idle = elim (Bool-cases (Queue.is_shutdown w.queue)) [
    | inl b ↦ rw b h
    | inr b ↦
        let (q, l) = opened w h b in
        rw b (popped_or_wait-OnlyPiece w (Queue.pop w.queue) q idle l refl)
  ]
  -- A full buffer with the right hash is written, and the queue is finished.
