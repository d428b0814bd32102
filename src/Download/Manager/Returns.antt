-- ===== src/Download/Manager/Returns.antt =====
-- When the wait of src/download/manager.rs returns, over all interleavings of the workers.
use codecrafters_bittorrent.Prelude.{
  ℕ, zero, suc, ◌+◌, ◌%◌, ◌<◌, ◌≡◌, ◌↔◌, sym, ◌∙◌, subst, true, ◌&&◌, [], Bytes, length, replicate,
  ok, arith, leb, ltb, if◌then◌else◌, Result-cases, inl, inr,
}
use codecrafters_bittorrent.Utils.RawBytes.{Text}
use codecrafters_bittorrent.Utils.Words.{u32_mod}
use codecrafters_bittorrent.Utils.Ranges.{range_from, length-range_from}
use codecrafters_bittorrent.Torrent.Metainfo.{get_piece_count}
use codecrafters_bittorrent.Download.Queue
use codecrafters_bittorrent.Download.Queue.{wait_until_finished}
use codecrafters_bittorrent.Download.Queue.Fleet.{
  Fleet, start, Reach, count, finished_iff_written, empty_never_finished,
}
use codecrafters_bittorrent.Download.Manager.{
  DownloadManager, Environment, Started, peers_of, piece_ids, open_output, spawn_all, download,
  tracker_request,
}

count-range_from :
    (a begin n : ℕ)
    → count a (range_from begin n) ≡ (if leb begin a && ltb a (begin + n) then 1 else 0)
unfolding range_from
count-range_from a begin zero = ground arith
count-range_from a begin (suc n) = ground (arith, count-range_from a (begin + 1) n)

-- All pieces of the torrent are to be downloaded, into a file of its length.
pub open_output-ok :
    (e : Environment) (path : Text) (len : ℕ) (file : Bytes)
    → open_output e path len ≡ ok file
    → file ≡ replicate len 0
unfolding open_output
open_output-ok e path len file h = ground arith

pub download-ok :
    (e : Environment) (d : DownloadManager) (s : Started)
    → download e d ≡ ok s
    → (s.queue ≡ Queue.new (piece_ids d.metainfo)) × (s.output_file ≡ replicate d.metainfo.length 0)
unfolding download spawn_all
download-ok e d s h =
    elim (Result-cases (peers_of (e.announce d.metainfo.announce (tracker_request d)))) [
      | inr (x, p) ↦ absurd (ground arith)
      | inl (peers, p) ↦ elim (Result-cases (open_output e d.output_path d.metainfo.length)) [
        | inr (x, o) ↦ absurd (ground arith)
        | inl (file, o) ↦
            let zeros = open_output-ok e d.output_path d.metainfo.length file o in ground arith
      ]
    ]

-- What the workers have done when all is done: each piece of the torrent is written once.
abbrev pub each_once : ℕ → ℕ → ℕ
each_once n i = if ltb i n then 1 else 0

range_returns :
    (n : ℕ) {t : Fleet}
    → n < u32_mod
    → Reach (start (range_from 0 n)) t
    → ((wait_until_finished t.shared ≡ true) ↔ ((0 < n) × (length t.written ≡ n)))
      × (wait_until_finished t.shared ≡ true → (i : ℕ) → count i t.written ≡ each_once n i)
range_returns zero {t} small r =
    let never = empty_never_finished {s = t} (unfold range_from in r) in
    ((λ done. cc, λ some_piece. absurd (omega arith)), λ done i. cc)
range_returns (suc n) {t} small r =
    let len = length-range_from 0 (suc n) in
    let all =
      λ (i : ℕ). finished_iff_written (range_from 0 (suc n)) i (omega arith) (omega arith) r in
    let (iff, _) = all 0 in
    (
      (λ done. (omega arith, iff.0 done ∙ len), λ full. iff.1 (full.1 ∙ sym len)),
      λ done i.
          let (_, _, _, written) = (all i).1 done in
          written ∙ count-range_from i 0 (suc n) ∙ ground arith,
    )

-- For a torrent of fewer than 2^32 pieces whose download has started: the file has the torrent's
-- length, in zeros; and in every interleaving of the workers' steps the manager's wait returns exactly
-- when there is at least one piece and as many are written as there are, and then each piece of the
-- torrent has been written exactly once, and nothing else.
pub download_returns :
    (e : Environment) (d : DownloadManager) (s : Started) {t : Fleet}
    → get_piece_count d.metainfo < u32_mod
    → download e d ≡ ok s
    → Reach (record { shared = s.queue; held = []; written = []; lost = [] }) t
    → let n = get_piece_count d.metainfo in
      (s.output_file ≡ replicate d.metainfo.length 0)
      × ((wait_until_finished t.shared ≡ true) ↔ ((0 < n) × (length t.written ≡ n)))
      × (wait_until_finished t.shared ≡ true → (i : ℕ) → count i t.written ≡ each_once n i)
unfolding piece_ids
download_returns e d s {t} small h r =
    let (queued, file) = download-ok e d s h in
    let n = get_piece_count d.metainfo in
    let whole : n % u32_mod ≡ n = omega arith in
    let r' : Reach (start (range_from 0 n)) t =
      subst (λ k. Reach (start (range_from 0 k)) t) whole
        (subst (λ q. Reach (record { shared = q; held = []; written = []; lost = [] }) t) queued
          r) in
    let (iff, each) = range_returns n small r' in (file, iff, each)
