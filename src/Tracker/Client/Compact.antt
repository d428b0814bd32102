-- ===== src/Tracker/Client/Compact.antt =====
-- The compact form of peers, which src/tracker/client.rs reads.
use codecrafters_bittorrent.Prelude.{
  ℕ, zero, suc, ◌+◌, ◌*◌, ◌/◌, ◌%◌, ◌^◌, ◌<◌, ◌≤◌, ◌≡◌, ◌≢◌, refl, ◌⊎◌, inl, inr, List, [], ◌∷◌,
  ◌++◌, Bytes, All, IsByte, length, ok, err, arith,
}
use codecrafters_bittorrent.Utils.RawBytes.{
  Text, to_raw_bytes, to_raw_string, to_raw_bytes-to_raw_string, length-to_raw_bytes,
  to_raw_bytes-IsByte,
}
use codecrafters_bittorrent.Torrent.Metainfo.{panicked, chunks}
use codecrafters_bittorrent.Tracker.Client.{Peer, peer_of_chunk, parse_chunks, parse_peers}

-- Four bytes and a port of two bytes.
abbrev pub IsPeer : Peer → Type 0
IsPeer p = (p.ip.a < 256) × (p.ip.b < 256) × (p.ip.c < 256) × (p.ip.d < 256) × (p.port < 2 ^ 16)

-- The compact form of one peer: the address, then the port in network order.
abbrev pub compact : Peer → Bytes
compact p = p.ip.a ∷ p.ip.b ∷ p.ip.c ∷ p.ip.d ∷ p.port / 256 ∷ p.port % 256 ∷ []

abbrev pub compact_all : List Peer → Bytes
compact_all [] = []
compact_all (p ∷ ps) = compact p ++ compact_all ps

pub compact_all-IsByte : (ps : List Peer) → All IsPeer ps → All IsByte (compact_all ps)
compact_all-IsByte [] h = tt
compact_all-IsByte (p ∷ ps) h =
    (h.0.0, (h.0.1, (h.0.2, (h.0.3, (omega arith, (omega arith, compact_all-IsByte ps h.1))))))

parse_chunks-compact_all :
    (fuel : ℕ) (ps : List Peer)
    → length (compact_all ps) ≤ fuel
    → parse_chunks (chunks fuel 6 (compact_all ps)) ≡ ok ps
unfolding chunks parse_chunks peer_of_chunk
parse_chunks-compact_all zero [] enough = refl
parse_chunks-compact_all (suc fuel) [] enough = refl
parse_chunks-compact_all zero (p ∷ ps) enough = absurd (omega arith)
parse_chunks-compact_all (suc fuel) (p ∷ ps) enough =
    let rest = parse_chunks-compact_all fuel ps (omega arith) in
    let port : p.port / 256 * 256 + p.port % 256 ≡ p.port = omega arith in rw (rest, port) refl

-- Peers that were written in the compact form, with bytes and ports in their ranges, are read back in
-- order.
pub parse_peers-compact_all :
    (ps : List Peer) → All IsPeer ps → parse_peers (to_raw_string (compact_all ps)) ≡ ok ps
unfolding parse_peers
parse_peers-compact_all ps h =
    rw (to_raw_bytes-to_raw_string (compact_all ps) (compact_all-IsByte ps h))
      (parse_chunks-compact_all (length (compact_all ps)) ps (omega arith))

parse_chunks-cases :
    (fuel : ℕ) (bs : Bytes)
    → length bs ≤ fuel
    → All IsByte bs
    → ((ps : List Peer) × (bs ≡ compact_all ps) × (parse_chunks (chunks fuel 6 bs) ≡ ok ps))
      ⊎ ((length bs % 6 ≢ 0) × (parse_chunks (chunks fuel 6 bs) ≡ err panicked))
unfolding chunks parse_chunks peer_of_chunk
parse_chunks-cases zero [] enough h = inl ([], refl, refl)
parse_chunks-cases (suc fuel) [] enough h = inl ([], refl, refl)
parse_chunks-cases zero (b ∷ bs) enough h = absurd (omega arith)
parse_chunks-cases (suc fuel) (a ∷ []) enough h = inr (omega arith, refl)
parse_chunks-cases (suc fuel) (a ∷ b ∷ []) enough h = inr (omega arith, refl)
parse_chunks-cases (suc fuel) (a ∷ b ∷ c ∷ []) enough h = inr (omega arith, refl)
parse_chunks-cases (suc fuel) (a ∷ b ∷ c ∷ d ∷ []) enough h = inr (omega arith, refl)
parse_chunks-cases (suc fuel) (a ∷ b ∷ c ∷ d ∷ e ∷ []) enough h = inr (omega arith, refl)
parse_chunks-cases (suc fuel) (a ∷ b ∷ c ∷ d ∷ e ∷ f ∷ bs) enough h =
    elim (parse_chunks-cases fuel bs (omega arith) h.1.1.1.1.1.1) [
      | inl (ps, same, parsed) ↦
          let low : f < 256 = h.1.1.1.1.1.0 in
          let p : Peer = record {
            ip = record { a = a; b = b; c = c; d = d };
            port = e * 256 + f;
          } in
          let first : (e * 256 + f) / 256 ≡ e = omega arith in
          let second : (e * 256 + f) % 256 ≡ f = omega arith in
          inl (p ∷ ps, rw (first, second, same) refl, rw parsed refl)
      | inr (uneven, panics) ↦ inr (omega arith, rw panics refl)
    ]

-- Either the bytes of the text are the compact form of the peers that come out, or their number is no
-- multiple of six and the parser panics.
pub parse_peers-cases :
    (peers : Text)
    → ((ps : List Peer) × (to_raw_bytes peers ≡ compact_all ps) × (parse_peers peers ≡ ok ps))
      ⊎ ((length peers % 6 ≢ 0) × (parse_peers peers ≡ err panicked))
unfolding parse_peers
parse_peers-cases peers = rw (← length-to_raw_bytes peers) (
    parse_chunks-cases (length (to_raw_bytes peers)) (to_raw_bytes peers) (omega arith)
      (to_raw_bytes-IsByte peers))
