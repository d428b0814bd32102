-- ===== src/Torrent/Metainfo/Hashes.antt =====
-- The piece hashes of src/torrent/metainfo.rs: the groups of 20 bytes that `pieces` holds.
use codecrafters_bittorrent.Prelude.{
  ℕ, zero, suc, ◌+◌, ◌-◌, ◌*◌, ◌^◌, ◌%◌, true, if◌then◌else◌, ◌<◌, ◌≤◌, ◌≡◌, refl, ap, ◌∙◌, ◌⊎◌,
  inl, inr, List, [], ◌∷◌, ◌++◌, Bytes, length, take, drop, some, ok, err, leb, Bool-cases, map,
  take-append-drop, length-drop, length-take, get_elem?, arith,
}
use codecrafters_bittorrent.Torrent.Metainfo.{
  Codec, get_piece_hashes, TorrentMetainfo, panicked, chunks, get_piece_count, get_piece_hash_bytes,
}

abbrev pub flatten {ℓ} : {A : Type ℓ} → List (List A) → List A
flatten [] = []
flatten (xs ∷ xss) = xs ++ flatten xss

drop-drop {ℓ} :
    {A : Type ℓ} (n k total : ℕ) (xs : List A) → total ≡ k + n → drop n (drop k xs) ≡ drop total xs
drop-drop n zero total xs e = let same : total ≡ n = omega arith in rw same refl
drop-drop n (suc k) zero xs e = absurd (omega arith)
drop-drop zero (suc k) (suc total) [] e = refl
drop-drop (suc n) (suc k) (suc total) [] e = refl
drop-drop n (suc k) (suc total) (x ∷ xs) e = drop-drop n k total xs (omega arith)

get_elem?-map {ℓ κ} :
    {A : Type ℓ} {B : Type κ} (f : A → B) (xs : List A) (i : ℕ) (x : A)
    → get_elem? xs i ≡ some x
    → get_elem? (map f xs) i ≡ some (f x)
get_elem?-map f [] i x e = absurd (cc e)
get_elem?-map f (y ∷ xs) zero x e = cc
get_elem?-map f (y ∷ xs) (suc i) x e = get_elem?-map f xs i x e

-- The groups of 20, put together again, are the list.
pub flatten-chunks {ℓ} :
    {A : Type ℓ} (fuel : ℕ) (xs : List A) → length xs ≤ fuel → flatten (chunks fuel 20 xs) ≡ xs
unfolding chunks
flatten-chunks zero [] enough = refl
flatten-chunks zero (x ∷ xs) enough = absurd (omega arith)
flatten-chunks (suc fuel) [] enough = refl
flatten-chunks (suc fuel) (x ∷ xs) enough =
    ap (λ l. take 20 (x ∷ xs) ++ l)
      (flatten-chunks fuel (drop 20 (x ∷ xs)) (omega (arith, length-drop 20 (x ∷ xs))))
    ∙ take-append-drop 20 (x ∷ xs)

-- The group at an index is the slice of the list that starts there.
get_elem?-chunks {ℓ} :
    {A : Type ℓ} (fuel i : ℕ) (xs : List A)
    → length xs ≤ fuel
    → i * 20 + 20 ≤ length xs
    → get_elem? (chunks fuel 20 xs) i ≡ some (take 20 (drop (i * 20) xs))
unfolding chunks
get_elem?-chunks fuel i [] enough fits = absurd (omega arith)
get_elem?-chunks zero i (x ∷ xs) enough fits = absurd (omega arith)
get_elem?-chunks (suc fuel) zero (x ∷ xs) enough fits = refl
get_elem?-chunks (suc fuel) (suc i) (x ∷ xs) enough fits =
    get_elem?-chunks fuel i (drop 20 (x ∷ xs)) (omega (arith, length-drop 20 (x ∷ xs)))
      (omega (arith, length-drop 20 (x ∷ xs)))
    ∙ ap (λ l. some (take 20 l)) (drop-drop (i * 20) 20 (suc i * 20) (x ∷ xs) (omega arith))

-- Where the bounds of the slice fit 64 bits, it is the one of 20 bytes at the index.
get_piece_hash_bytes-eq :
    (m : TorrentMetainfo) (i : ℕ)
    → i * 20 + 20 < 2 ^ 64
    → get_piece_hash_bytes m i ≡ (
        if leb (i * 20 + 20) (length m.pieces)
        then ok (take 20 (drop (i * 20) m.pieces))
        else err panicked)
unfolding get_piece_hash_bytes
get_piece_hash_bytes-eq m i small =
    let start : (i * 20) % 2 ^ 64 ≡ i * 20 = omega arith in
    let end : (i * 20 + 20) % 2 ^ 64 ≡ i * 20 + 20 = omega arith in
    let size : i * 20 + 20 - i * 20 ≡ 20 = omega arith in
    let ordered : leb (i * 20) (i * 20 + 20) ≡ true = ground arith in
    rw (get_piece_hash_bytes, start, end, size, ordered) refl

-- For an index whose slice ends below 2^64: below `get_piece_count`, `get_piece_hash_bytes` gives the
-- 20 bytes whose hexadecimal form `get_piece_hashes` has at that index; at every other index it
-- panics.
pub get_piece_hash_bytes-get_piece_hashes :
    (c : Codec) (m : TorrentMetainfo) (i : ℕ)
    → i * 20 + 20 < 2 ^ 64
    → ((i < get_piece_count m)
        × ((h : Bytes) × (get_piece_hash_bytes m i ≡ ok h)
            × (length h ≡ 20)
            × (get_elem? (get_piece_hashes c m) i ≡ some (c.hex h))))
      ⊎ ((get_piece_count m ≤ i) × (get_piece_hash_bytes m i ≡ err panicked))
unfolding get_piece_count get_piece_hashes
get_piece_hash_bytes-get_piece_hashes c m i small =
    let slice = get_piece_hash_bytes-eq m i small in
    elim (Bool-cases (leb (i * 20 + 20) (length m.pieces))) [
      | inl fits ↦
          let le : i * 20 + 20 ≤ length m.pieces = ground arith in
          rw (slice, fits)
            (inl (
              omega arith,
              (
                take 20 (drop (i * 20) m.pieces),
                refl,
                omega
                    (arith, length-take 20 (drop (i * 20) m.pieces), length-drop (i * 20) m.pieces),
                get_elem?-map c.hex _ i _
                    (get_elem?-chunks (length m.pieces) i m.pieces (omega arith) le),
              ),
            ))
      | inr over ↦ rw (slice, over) (inr (ground arith, refl))
    ]
