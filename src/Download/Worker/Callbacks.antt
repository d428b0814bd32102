-- ===== src/Download/Worker/Callbacks.antt =====
-- The parts of the callbacks of src/download/worker.rs as steps of the fleet, their error paths included.
use codecrafters_bittorrent.Prelude.{
  ℕ, zero, suc, ◌≡◌, refl, ap, ◌∙◌, replicate, ◌⊎◌, inl, inr, List, [], ◌∷◌, none, some, Result, ok,
  err, leb, list_eq, list_eq→eq, Bytes, Bool-cases, Option-cases, Result-cases, arith,
}
use codecrafters_bittorrent.Peer.Session.{SessionControl, continue}
use codecrafters_bittorrent.Torrent.Metainfo.{TorrentMetainfo, get_piece_hash_bytes}
use codecrafters_bittorrent.Download.Queue
use codecrafters_bittorrent.Download.Queue.{PieceQueue, Popped, piece, closed, parked}
use codecrafters_bittorrent.Download.Worker.Ledger.{
  hand_of, Settles, keeps, drops, Moves-refl, Moves-gives_back, Settles-completes, Moves-takes,
  Loses-ends, Settles-after,
}
use codecrafters_bittorrent.Download.Worker.Integrity.{
  IsVerified, offset_of, request_for-file, with_control-file, next_or_stop-file,
}
use codecrafters_bittorrent.Download.Worker.{
  persist_failed, write_at, DownloadState, Setting, PeerWorker, WorkerError, panicked, bind_result,
  get_piece_len, persist_piece, request_for, popped_or_wait, begin_piece, start_next_piece,
  with_control, next_or_stop, complete_piece, reject_piece, finish_piece, advance,
}

pub Settles-with_control :
    (c : Setting) (q : PieceQueue) (h : List ℕ) (r : Result WorkerError (Unit {0}) × PeerWorker)
    (control : SessionControl)
    → Settles q h [] r
    → Settles q h [] (with_control c r control)
unfolding with_control
Settles-with_control c q h (ok u, w) control (keeps m) = keeps m
Settles-with_control c q h (err e, w) control (keeps m) = keeps m
Settles-with_control c q h (ok u, w) control (drops i q' (inl e) m l a) = absurd (cc e)
Settles-with_control c q h (ok u, w) control (drops i q' (inr e) m l a) = absurd (cc e)
Settles-with_control c q h (err x, w) control (drops i q' (inl e) m l a) =
    drops i q' (inl (cc)) m l a
Settles-with_control c q h (err x, w) control (drops i q' (inr e) m l a) =
    drops i q' (inr (cc)) m l a

pop_from-kept :
    (q q' : PieceQueue) (xs : List ℕ)
    → (Queue.pop_from q xs ≡ (q', closed)) ⊎ (Queue.pop_from q xs ≡ (q', parked))
    → q' ≡ q
unfolding Queue.pop_from
pop_from-kept q q' [] e = ground arith
pop_from-kept q q' (x ∷ xs) e = ground arith

pop-kept :
    (q q' : PieceQueue) → (Queue.pop q ≡ (q', closed)) ⊎ (Queue.pop q ≡ (q', parked)) → q' ≡ q
unfolding Queue.pop
pop-kept q q' e = pop_from-kept q q' q.queue e

-- What is left as it was, up to equations.
pub Settles-same :
    {A : Type 0} (q : PieceQueue) (h : List ℕ) (r : Result WorkerError A × PeerWorker)
    → r.1.queue ≡ q
    → hand_of r.1.active_download ≡ h
    → Settles q h [] r
Settles-same q h r e f = keeps (rw (e, f) (Moves-refl q h))

module _ (c : Setting) where
  -- How a call settles the piece in hand. A piece is completed only when its bytes, whose SHA-1 is the
  -- metainfo's hash for it, are in the file at its offset; otherwise the file is as it was, but for a failed
  -- write.
  pub data IsSettled {A : Type 0} (q : PieceQueue) (hand : List ℕ) (file : Bytes)
      (r : Result WorkerError A × PeerWorker) : Type 0 where
    unfinished :
        (r.1.output_file ≡ file) ⊎ (r.0 ≡ err persist_failed)
        → Settles q hand [] r
        → IsSettled q hand file r
    finished :
        (i : ℕ) (bytes : Bytes)
        → hand ≡ i ∷ []
        → IsVerified c i bytes
        → r.1.output_file ≡ write_at file (offset_of c i) bytes
        → Settles q hand (i ∷ []) r
        → IsSettled q hand file r

  -- A call that loses the piece in hand.
  dropped :
      {A : Type 0} (d : DownloadState) (w : PeerWorker) (r : Result WorkerError A × PeerWorker)
      → r.1.queue ≡ w.queue
      → r.1.active_download ≡ w.active_download
      → (r.0 ≡ err persist_failed) ⊎ (r.0 ≡ err panicked)
      → w.active_download ≡ none
      → Settles w.queue (d.index ∷ []) [] r
  dropped d w r same kept e free =
      drops d.index w.queue e (Moves-refl _ _) (rw same (Loses-ends w.queue d.index)) (kept ∙ free)

  -- A request leaves the queue and the hand alone.
  pub request_for-same :
      (d : DownloadState) (w : PeerWorker)
      → ((request_for c d w).1.queue ≡ w.queue)
        × ((request_for c d w).1.active_download ≡ w.active_download)
  unfolding request_for
  request_for-same d w = ground arith

  pub request_for-Settles :
      (d : DownloadState) (w : PeerWorker)
      → w.active_download ≡ some d
      → Settles w.queue (d.index ∷ []) [] (request_for c d w)
  request_for-Settles d w e =
      let (q, a) = request_for-same d w in
      Settles-same w.queue (d.index ∷ []) (request_for c d w) q (ap hand_of (a ∙ e))

  get_piece_len-panicked :
      (m : TorrentMetainfo) (i : ℕ) (x : WorkerError) → get_piece_len m i ≡ err x → x ≡ panicked
  unfolding get_piece_len
  get_piece_len-panicked m i x e = ground arith

  begin_piece-Settles :
      (i : ℕ) (w : PeerWorker)
      → w.active_download ≡ none
      → Settles w.queue (i ∷ []) [] (begin_piece c (some i) w)
  unfolding begin_piece
  begin_piece-Settles i w free = elim (Result-cases (get_piece_len c.metainfo i)) [
    | inl (n, e) ↦
        rw (e, begin_piece)
          (request_for-Settles _
            (record w {
              active_download =
                  some (record { index = i; offset = 0; length = n; buffer = replicate n 0 });
            })
            refl)
    | inr (x, e) ↦
        let sole = get_piece_len-panicked c.metainfo i x e in
        rw (e, begin_piece)
          (drops i w.queue (inr (ap err sole)) (Moves-refl _ _) (Loses-ends w.queue i) free)
  ]

  after_pop-Settles :
      (w : PeerWorker) (r : PieceQueue × Popped)
      → ((q : PieceQueue) → c.await q ≡ q)
      → w.active_download ≡ none
      → Queue.pop w.queue ≡ r
      → Settles w.queue [] [] (bind_result (popped_or_wait c w r) (begin_piece c))
  unfolding popped_or_wait begin_piece
  after_pop-Settles w (q, piece i) alone free e =
      Settles-after w.queue q [] (i ∷ []) _ (Moves-takes w.queue q i e)
        (begin_piece-Settles i (record w { queue = q }) free)
  after_pop-Settles w (q, closed) alone free e =
      Settles-same w.queue [] _ (pop-kept w.queue q (inl e)) (ap hand_of free)
  after_pop-Settles w (q, parked) alone free e =
      let same = pop-kept w.queue q (inr e) in
      let again = ap Queue.pop (alone q ∙ same) ∙ e in
      rw again (Settles-same w.queue [] _ same (ap hand_of free))

  pub start_next_piece-Settles :
      (w : PeerWorker)
      → ((q : PieceQueue) → c.await q ≡ q)
      → w.active_download ≡ none
      → Settles w.queue [] [] (start_next_piece c w)
  unfolding start_next_piece
  start_next_piece-Settles w alone free = elim (Bool-cases (Queue.is_shutdown w.queue)) [
    | inl b ↦ rw b (Settles-same w.queue [] _ refl (ap hand_of free))
    | inr b ↦ rw b (after_pop-Settles w (Queue.pop w.queue) alone free refl)
  ]

  next_or_stop-Settles :
      (w : PeerWorker)
      → ((q : PieceQueue) → c.await q ≡ q)
      → w.active_download ≡ none
      → Settles w.queue [] [] (next_or_stop c w)
  unfolding next_or_stop
  next_or_stop-Settles w alone free = elim (Bool-cases (Queue.is_shutdown w.queue)) [
    | inl b ↦ rw b (Settles-same w.queue [] _ refl (ap hand_of free))
    | inr b ↦
        rw b (Settles-with_control c w.queue [] _ continue (start_next_piece-Settles w alone free))
  ]

  complete_piece-IsSettled :
      (d : DownloadState) (w : PeerWorker)
      → ((q : PieceQueue) → c.await q ≡ q)
      → w.active_download ≡ none
      → IsVerified c d.index d.buffer
      → IsSettled w.queue (d.index ∷ []) w.output_file (complete_piece c d w)
  unfolding complete_piece
  complete_piece-IsSettled d w alone free v = elim (Option-cases (c.write_fails d.index d.buffer)) [
    | inl b ↦
        rw (b, persist_piece)
          (finished d.index d.buffer refl v (next_or_stop-file c _)
            (Settles-completes w.queue d.index _ (next_or_stop-Settles _ alone free)))
    | inr (zero, b) ↦
        rw (b, persist_piece) (unfinished (inr refl) (dropped d w _ refl refl (inl refl) free))
    | inr (suc n, b) ↦
        rw (b, persist_piece) (unfinished (inr refl) (dropped d w _ refl refl (inl refl) free))
  ]

  finish_piece-IsSettled :
      (d : DownloadState) (w : PeerWorker)
      → ((q : PieceQueue) → c.await q ≡ q)
      → w.active_download ≡ none
      → IsSettled w.queue (d.index ∷ []) w.output_file (finish_piece c d w)
  unfolding finish_piece
  finish_piece-IsSettled d w alone free =
      elim (Result-cases (get_piece_hash_bytes c.metainfo d.index)) [
        | inr (x, e) ↦
            rw (e, finish_piece) (unfinished (inl refl) (dropped d w _ refl refl (inr refl) free))
        | inl (expected, e) ↦ elim (Bool-cases (list_eq expected (c.sha1 d.buffer))) [
          | inl same ↦
              rw (e, same, finish_piece)
                (complete_piece-IsSettled d w alone free
                  (e ∙ ap ok (list_eq→eq expected (c.sha1 d.buffer) same)))
          | inr differs ↦
              rw (e, differs, finish_piece)
                (unfold reject_piece in
                  unfinished (inl refl) (keeps (rw free (Moves-gives_back w.queue d.index))))
        ]
      ]

  pub advance-IsSettled :
      (d : DownloadState) (w : PeerWorker)
      → ((q : PieceQueue) → c.await q ≡ q)
      → IsSettled w.queue (d.index ∷ []) w.output_file (advance c d w)
  unfolding advance
  advance-IsSettled d w alone = elim (Bool-cases (leb d.length d.offset)) [
    | inl full ↦ rw full (finish_piece-IsSettled d (record w { active_download = none }) alone refl)
    | inr partial ↦ rw partial (
        unfinished
          (inl (
            with_control-file c _ continue
            ∙ request_for-file c d (record w { active_download = some d })))
          (Settles-with_control c w.queue _ _ continue
            (request_for-Settles d (record w { active_download = some d }) refl)))
  ]
