-- ===== src/Main/Piece/Saved.antt =====
-- What `download_piece_with_metainfo` of src/main.rs saves.
use codecrafters_bittorrent.Prelude.{
  ℕ, ◌+◌, ◌*◌, ◌≤◌, ◌<◌, ◌≡◌, ◌⊎◌, refl, sym, ap, ◌∙◌, subst, true, List, [], ◌∷◌, All, Bytes,
  length, length-replicate, Option, none, some, ok, err, arith, Result-cases, inl, inr,
}
use codecrafters_bittorrent.Utils.RawBytes.{Text}
use codecrafters_bittorrent.Utils.Words.{u32_mod}
use codecrafters_bittorrent.Torrent.Metainfo.{TorrentMetainfo, get_piece_hash_bytes}
use codecrafters_bittorrent.Tracker.Client.{Peer}
use codecrafters_bittorrent.Peer.Connection.{PeerEvent}
use codecrafters_bittorrent.Peer.Session.{
  Attempt, Outcome, Ended, done, max_retries_reached, out_of_fuel, aggressive, run,
}
use codecrafters_bittorrent.Peer.Session.Rounds.{KeptBy, Undisturbed}
use codecrafters_bittorrent.Peer.Session.Safety.{run-keeps}
use codecrafters_bittorrent.Peer.Session.Stops.{StopsAt, run-Ends}
use codecrafters_bittorrent.Download.Queue
use codecrafters_bittorrent.Download.Queue.{PieceQueue}
use codecrafters_bittorrent.Download.Worker.{
  Setting, PeerWorker, WorkerError, u64_mod, get_piece_len, should_stop, handler,
}
use codecrafters_bittorrent.Download.Worker.Length.{size_of_piece, get_piece_len-eq}
use codecrafters_bittorrent.Download.Worker.Integrity.{IsVerified}
use codecrafters_bittorrent.Download.Worker.Single.{OnlyPiece, working, saved}
use codecrafters_bittorrent.Download.Worker.Single.Events.{on_event-Kept, on_connect-Kept}
use codecrafters_bittorrent.Download.Manager.{
  Environment, DownloadError, worker_setting, new_worker, run_worker, open_output,
}
use codecrafters_bittorrent.Download.Manager.Returns.{open_output-ok}
use codecrafters_bittorrent.Main.{tracker_request, expect_response}
use codecrafters_bittorrent.Main.Piece.{
  PieceEnd, after_error, after_worker, try_peers, download_piece_with_metainfo,
}

-- No other thread changes the state of the worker.
pub record IsQuiet (a : Attempt PeerWorker) : Type 0 where
  pub connecting_same : (w : PeerWorker) → a.connecting w ≡ w
  pub before_same :
      All (λ (x : (PeerWorker → PeerWorker) × PeerEvent). (w : PeerWorker) → x.0 w ≡ w) a.arrivals
  pub closing_same : (w : PeerWorker) → a.closing w ≡ w
  pub asleep_same : (w : PeerWorker) → a.asleep w ≡ w

module _ (Q : PeerWorker → Type 0) where
  arrivals_keep :
      (xs : List ((PeerWorker → PeerWorker) × PeerEvent))
      → All (λ (x : (PeerWorker → PeerWorker) × PeerEvent). (w : PeerWorker) → x.0 w ≡ w) xs
      → All (λ (x : (PeerWorker → PeerWorker) × PeerEvent). (w : PeerWorker) → Q w → Q (x.0 w)) xs
  arrivals_keep [] h = tt
  arrivals_keep (x ∷ xs) h = (λ w q. subst Q (sym (h.0 w)) q, arrivals_keep xs h.1)

  IsQuiet-Undisturbed : (a : Attempt PeerWorker) → IsQuiet a → Undisturbed Q a
  IsQuiet-Undisturbed a h = record {
    connecting_keeps = λ w q. subst Q (sym (h.connecting_same w)) q;
    before_keeps = arrivals_keep a.arrivals h.before_same;
    closing_keeps = λ w q. subst Q (sym (h.closing_same w)) q;
    asleep_keeps = λ w q. subst Q (sym (h.asleep_same w)) q;
  }

  quiet_network :
      (network : List (Attempt PeerWorker)) → All IsQuiet network → All (Undisturbed Q) network
  quiet_network [] h = tt
  quiet_network (a ∷ network) h = (IsQuiet-Undisturbed a h.0, quiet_network network h.1)

-- A session of a worker that is alone with the queue.
module _ (c : Setting) (i total : ℕ) (alone : (q : PieceQueue) → c.await q ≡ q)
    (whole : get_piece_len c.metainfo i ≡ ok total) (base : c.base_piece_index ≡ i) where
  abbrev Finished : PeerWorker → Type 0
  Finished w = w.queue.finished ≡ true

  worker_stops : StopsAt (OnlyPiece c i total) Finished (λ x w. Unit {0}) (handler c)
  unfolding handler should_stop Queue.is_shutdown
  worker_stops = record {
    connect_leaves = λ conn w h.
        let k = on_connect-Kept c i total alone whole base w h in
        record { keeps = k.only; stops = k.stops_saved; fails = λ x e. tt };
    event_leaves = λ conn e w h.
        let k = on_event-Kept c i total alone whole base e w h in
        record { keeps = k.only; stops = k.stops_saved; fails = λ x e. tt };
    wants = λ w f. f;
  }

  worker_keeps : KeptBy (OnlyPiece c i total) (handler c)
  worker_keeps = record {
    connect_keeps = λ conn w h. (worker_stops.connect_leaves conn w h).keeps;
    event_keeps = λ conn e w h. (worker_stops.event_leaves conn e w h).keeps;
  }

  verified :
      (w : PeerWorker)
      → OnlyPiece c i total w
      → Finished w
      → IsVerified c i w.output_file × (length w.output_file ≡ total)
  verified w (working q a l) f = cc
  verified w (saved f a v n) _ = (v, n)

  run_worker-saved :
      (network : List (Attempt PeerWorker)) (w : PeerWorker)
      → All IsQuiet network
      → OnlyPiece c i total w
      → (run_worker c aggressive network w).outcome ≡ done
      → let file = (run_worker c aggressive network w).state.output_file in
        IsVerified c i file × (length file ≡ total)
  unfolding run_worker
  run_worker-saved network w quiet h ends =
      let u = quiet_network (OnlyPiece c i total) network quiet in
      verified (run (handler c) aggressive network w).state
        (run-keeps (OnlyPiece c i total) (handler c) aggressive worker_keeps network w u h)
        ((run-Ends (OnlyPiece c i total) Finished (λ x w. Unit) (handler c) worker_stops aggressive
            network w u h).done_at
          ends)

new_worker-OnlyPiece :
    (c : Setting) (i total : ℕ) (file : Bytes)
    → length file ≤ total
    → OnlyPiece c i total (new_worker (Queue.new (i ∷ [])) file)
unfolding new_worker Queue.new
new_worker-OnlyPiece c i total file l =
    working
      (record { one_piece = refl; not_finished = refl; none_completed = refl; only = (refl, tt) })
      tt l

after_error-saved :
    (x : WorkerError) (rest : PieceEnd) (g : Bytes)
    → after_error x rest ≡ PieceEnd.saved g
    → rest ≡ PieceEnd.saved g
after_error-saved WorkerError.panicked rest g e = cc
after_error-saved WorkerError.blocked rest g e = cc
after_error-saved WorkerError.send_failed rest g e = e
after_error-saved WorkerError.persist_failed rest g e = e
after_error-saved WorkerError.overrun rest g e = e
after_error-saved (WorkerError.hash_mismatch n) rest g e = e

after_worker-saved :
    (o : Outcome WorkerError) (file : Bytes) (rest : PieceEnd) (g : Bytes)
    → after_worker o file rest ≡ PieceEnd.saved g
    → ((o ≡ done) × (file ≡ g)) ⊎ (rest ≡ PieceEnd.saved g)
after_worker-saved done file rest g e = inl (refl, ground arith)
after_worker-saved max_retries_reached file rest g e = inr e
after_worker-saved out_of_fuel file rest g e = cc
after_worker-saved (Outcome.failed x) file rest g e = inr (after_error-saved x rest g e)

module _ (e : Environment) (network : ℕ → List (Attempt PeerWorker)) (m : TorrentMetainfo)
    (output_file_path : Text) (i : ℕ) (whole : get_piece_len m i ≡ ok (size_of_piece m i))
    (alone : (peer : Peer) (q : PieceQueue) → e.await peer q ≡ q)
    (quiet : (n : ℕ) → All IsQuiet (network n)) where
  abbrev session : Peer → ℕ → Bytes → Ended WorkerError PeerWorker
  session peer n output_file =
      run_worker (worker_setting e m i peer) aggressive (network n)
        (new_worker (Queue.new (i ∷ [])) output_file)

  session-saved :
      (peer : Peer) (n : ℕ) (output_file : Bytes)
      → length output_file ≤ size_of_piece m i
      → let r = session peer n output_file in
        r.outcome ≡ done
        → (get_piece_hash_bytes m i ≡ ok (e.sha1 r.state.output_file))
          × (length r.state.output_file ≡ size_of_piece m i)
  unfolding worker_setting
  session-saved peer n output_file l =
      run_worker-saved (worker_setting e m i peer) i (size_of_piece m i) (alone peer) whole refl
        (network n) (new_worker (Queue.new (i ∷ [])) output_file) (quiet n)
        (new_worker-OnlyPiece (worker_setting e m i peer) i (size_of_piece m i) output_file l)

  try_peers-next :
      (peer : Peer) (peers : List Peer) (n : ℕ) (before : Option Bytes) (output_file : Bytes)
      → open_output e output_file_path (size_of_piece m i) ≡ ok output_file
      → try_peers e network m output_file_path i (peer ∷ peers) n before
        ≡ after_worker
            (session peer n output_file).outcome
            (session peer n output_file).state.output_file
            (try_peers e network m output_file_path i peers
              (n + 1)
              (some (session peer n output_file).state.output_file))
  unfolding try_peers
  try_peers-next peer peers n before output_file o = rw (o, try_peers) refl

  try_peers-crashed :
      (peer : Peer) (peers : List Peer) (n : ℕ) (before : Option Bytes) (x : DownloadError)
      → open_output e output_file_path (size_of_piece m i) ≡ err x
      → try_peers e network m output_file_path i (peer ∷ peers) n before ≡ PieceEnd.crashed
  unfolding try_peers
  try_peers-crashed peer peers n before x o = rw (o, try_peers) refl

  try_peers-saved :
      (peers : List Peer) (n : ℕ) (before : Option Bytes) (file : Bytes)
      → try_peers e network m output_file_path i peers n before ≡ PieceEnd.saved file
      → (get_piece_hash_bytes m i ≡ ok (e.sha1 file)) × (length file ≡ size_of_piece m i)
  try_peers-saved [] n before file h = unfold try_peers in cc
  try_peers-saved (peer ∷ peers) n before file h =
      elim (Result-cases (open_output e output_file_path (size_of_piece m i))) [
        | inr (x, o) ↦ cc (try_peers-crashed peer peers n before x o)
        | inl (output_file, o) ↦
            let zeros = open_output-ok e output_file_path (size_of_piece m i) output_file o in
            let fits : length output_file ≤ size_of_piece m i =
              omega (arith, ap length zeros, length-replicate {A = ℕ} (size_of_piece m i) 0) in
            let s = session peer n output_file in
            elim (after_worker-saved s.outcome s.state.output_file _ file
              (sym (try_peers-next peer peers n before output_file o) ∙ h)) [
                | inl (ends, same) ↦
                    subst
                      (λ f.
                        (get_piece_hash_bytes m i ≡ ok (e.sha1 f)) × (length f ≡ size_of_piece m i))
                      same (session-saved peer n output_file fits ends)
                | inr rest ↦ try_peers-saved peers (n + 1) (some s.state.output_file) file rest
              ]
      ]

-- For a piece that starts inside the torrent, with a nonzero piece length below 2^32 and a total that
-- does not overflow, and workers whose queue no other thread touches: when a session succeeds, with
-- whichever peer, the file that `download_piece_with_metainfo` leaves has the SHA-1 that the metainfo
-- has for the piece, and the length of the piece.
pub download_piece-saved :
    (e : Environment) (network : ℕ → List (Attempt PeerWorker)) (m : TorrentMetainfo)
    (output_file_path : Text) (i : ℕ) (file : Bytes)
    → 0 < m.piece_length
    → m.piece_length < u32_mod
    → m.length + m.piece_length < u64_mod
    → i * m.piece_length < m.length
    → ((peer : Peer) (q : PieceQueue) → e.await peer q ≡ q)
    → ((n : ℕ) → All IsQuiet (network n))
    → download_piece_with_metainfo e network m output_file_path i ≡ PieceEnd.saved file
    → (get_piece_hash_bytes m i ≡ ok (e.sha1 file)) × (length file ≡ size_of_piece m i)
unfolding download_piece_with_metainfo
download_piece-saved e network m output_file_path i file pos small fits inside alone quiet h =
    elim (Result-cases (expect_response (e.announce m.announce (tracker_request m)))) [
      | inr (x, r) ↦ absurd (ground arith)
      | inl (response, r) ↦
          try_peers-saved e network m output_file_path i
            (get_piece_len-eq m i pos small fits inside) alone quiet response.peers 0 none file
            (sym (rw (r, download_piece_with_metainfo) refl) ∙ h)
    ]
