-- ===== src/Download/Worker/Length.antt =====
-- Piece lengths: `get_piece_len` of src/download/worker.rs against the formula of src/main.rs.
use codecrafters_bittorrent.Prelude.{
  ℕ, ◌+◌, ◌-◌, ◌*◌, ◌/◌, ◌%◌, ◌≤◌, ◌<◌, ◌≡◌, sym, ap, false, min, arith, Bool-cases, inl, inr, ok,
  ◌==◌, if◌then◌else◌,
}
use native.Mathlib.Nat.{add-div_right, le-div_iff_mul-le, div-le_self, div-add-mod', mod-lt}
use codecrafters_bittorrent.Utils.Words.{u32_mod}
use codecrafters_bittorrent.Torrent.Metainfo.{TorrentMetainfo}
use codecrafters_bittorrent.Download.Worker.{get_piece_len, u64_mod}

-- `download_piece_with_metainfo` of src/main.rs sizes its file by this.
unfoldable pub size_of_piece : TorrentMetainfo → ℕ → ℕ
size_of_piece m piece_index =
    let offset = (piece_index * m.piece_length) % u64_mod in min (m.length - offset) m.piece_length

mod_unique : (p q r n : ℕ) → n ≡ q * p + r → r < p → n % p ≡ r
mod_unique p q r n e h = grind arith

-- The index of the last piece, as the code computes it, is that of the last byte.
last_piece :
    (total p : ℕ)
    → 0 < p
    → 0 < total
    → total + p < u64_mod
    → (((total + p) % u64_mod + u64_mod - 1) % u64_mod / p + u64_mod - 1) % u64_mod
      ≡ (total - 1) / p
last_piece total p pos some_byte fits =
    let sum : ((total + p) % u64_mod + u64_mod - 1) % u64_mod ≡ total - 1 + p = omega arith in
    rw (sum, add-div_right (total - 1) {k = p} pos) (omega (arith, div-le_self (total - 1) p))

-- A piece before the last one is full, the last one has what is left.
last_size :
    (total p q : ℕ)
    → 0 < p
    → total - 1 ≡ q * p + (total - 1) % p
    → 0 < total
    → (if total % p == 0 then p else total % p) ≡ min (total - q * p) p
last_size total p q pos split some_byte = elim (Bool-cases ((total - 1) % p + 1 == p)) [
  | inl even ↦
      let whole : total % p ≡ 0 = mod_unique p (q + 1) 0 total (grind arith) pos in
      rw whole (ground arith)
  | inr odd ↦
      let short : (total - 1) % p < p = mod-lt (total - 1) pos in
      let left : total % p ≡ (total - 1) % p + 1 =
        mod_unique p q ((total - 1) % p + 1) total (omega arith) (ground arith) in
      rw left (ground arith)
]

full_size : (total p q i : ℕ) → i < q → q * p < total → min (total - i * p) p ≡ p
full_size total p q i below h = let room : i * p + p ≤ q * p = grind arith in omega arith

-- For a nonzero piece length below 2^32, a total that does not overflow, and a piece that starts
-- inside the torrent: the worker's piece length is the size that `main.rs` gives the output file.
pub get_piece_len-eq :
    (m : TorrentMetainfo) (i : ℕ)
    → 0 < m.piece_length
    → m.piece_length < u32_mod
    → m.length + m.piece_length < u64_mod
    → i * m.piece_length < m.length
    → get_piece_len m i ≡ ok (size_of_piece m i)
unfolding get_piece_len size_of_piece
get_piece_len-eq m i pos small fits h =
    let total = m.length in
    let p = m.piece_length in
    let q = (total - 1) / p in
    let split : total - 1 ≡ q * p + (total - 1) % p = sym (div-add-mod' (total - 1) p) in
    let last = last_piece total p pos (omega arith) fits in
    let no_wrap : (i * p) % u64_mod ≡ i * p = omega arith in
    let tail = last_size total p q pos split (omega arith) in
    let nonzero : (p == 0) ≡ false = ground arith in
    let at_most : i ≤ q = (le-div_iff_mul-le {k = p} {x = i} {y = total - 1} pos).1 (omega arith) in
    rw (last, no_wrap, nonzero)
      (elim (Bool-cases (i == q)) [
        | inl here ↦
            let same : i ≡ q = ground arith in rw (here, tail, ← same) (ap ok (omega arith))
        | inr before ↦
            let full = full_size total p q i (ground arith) (omega arith) in
            rw (before, full) (ap ok (omega arith))
      ])
