-- ===== src/Peer/Metadata/Buffer.antt =====
-- What a copy into a buffer leaves at each index, for src/peer/metadata.rs.
use codecrafters_bittorrent.Prelude.{
  ℕ, zero, suc, ◌+◌, ◌-◌, ◌≤◌, ◌<◌, ◌≡◌, refl, ap, ◌∙◌, true, [], ◌∷◌, ◌++◌, arith, Bytes, length,
  take, drop, get_elem?, none, length-append, length-take, length-drop, ok, leb, ltb, ◌&&◌,
  if◌then◌else◌,
}
use codecrafters_bittorrent.Peer.Metadata.Fetcher.{copy_piece}

get_elem?-append :
    (xs ys : Bytes) (i : ℕ)
    → get_elem? (xs ++ ys) i
      ≡ (if ltb i (length xs) then get_elem? xs i else get_elem? ys (i - length xs))
get_elem?-append [] ys i = ground arith
get_elem?-append (x ∷ xs) ys zero = ground arith
get_elem?-append (x ∷ xs) ys (suc i) = ground (arith, get_elem?-append xs ys i)

pub get_elem?-take : (n : ℕ) (xs : Bytes) (i : ℕ) → i < n → get_elem? (take n xs) i ≡ get_elem? xs i
get_elem?-take zero xs i h = absurd (omega arith)
get_elem?-take (suc n) [] i h = refl
get_elem?-take (suc n) (x ∷ xs) zero h = refl
get_elem?-take (suc n) (x ∷ xs) (suc i) h = get_elem?-take n xs i (omega arith)

pub get_elem?-drop : (n : ℕ) (xs : Bytes) (i : ℕ) → get_elem? (drop n xs) i ≡ get_elem? xs (n + i)
get_elem?-drop zero xs i = ap (get_elem? xs) (omega arith)
get_elem?-drop (suc n) [] i = refl
get_elem?-drop (suc n) (x ∷ xs) i =
    let e : suc n + i ≡ suc (n + i) = omega arith in rw e (get_elem?-drop n xs i)

pub get_elem?_past : (xs : Bytes) (i : ℕ) → length xs ≤ i → get_elem? xs i ≡ none
get_elem?_past [] i h = refl
get_elem?_past (x ∷ xs) zero h = absurd (omega arith)
get_elem?_past (x ∷ xs) (suc i) h = get_elem?_past xs i (omega arith)

-- Lists that agree at every index are equal.
pub eq_of_get_elem? : (xs ys : Bytes) → ((i : ℕ) → get_elem? xs i ≡ get_elem? ys i) → xs ≡ ys
eq_of_get_elem? [] [] h = refl
eq_of_get_elem? [] (y ∷ ys) h = cc (h 0)
eq_of_get_elem? (x ∷ xs) [] h = cc (h 0)
eq_of_get_elem? (x ∷ xs) (y ∷ ys) h = let rest = eq_of_get_elem? xs ys (λ i. h (suc i)) in cc (h 0)

-- A buffer into which the first bytes of `bytes` were copied, from `offset` up to `end`.
pub record CopyOf (buf bytes : Bytes) (offset end : ℕ) (new : Bytes) : Type 0 where
  pub length_same : length new ≡ length buf
  pub before_kept : (i : ℕ) → i < offset → get_elem? new i ≡ get_elem? buf i
  pub inside_kept : (i : ℕ) → offset ≤ i → i < end → get_elem? new i ≡ get_elem? bytes (i - offset)
  pub behind_kept : (i : ℕ) → end ≤ i → get_elem? new i ≡ get_elem? buf i

module _ (buf bytes : Bytes) (offset end : ℕ) (forward : offset ≤ end) (inside : end ≤ length buf)
    (enough : end - offset ≤ length bytes) where
  abbrev copied : Bytes
  copied = take offset buf ++ (take (end - offset) bytes ++ drop end buf)

  copy_piece_lem : copy_piece buf offset end bytes ≡ ok copied
  unfolding copy_piece
  copy_piece_lem =
      let b : (leb offset end && leb end (length buf) && leb (end - offset) (length bytes)) ≡ true =
        ground arith in
      rw b refl

  length-copied : length copied ≡ length buf
  length-copied = omega (
    arith,
    length-append (take offset buf) (take (end - offset) bytes ++ drop end buf),
    length-append (take (end - offset) bytes) (drop end buf),
    length-take offset buf,
    length-take (end - offset) bytes,
    length-drop end buf,
  )

  copied_before : (i : ℕ) → i < offset → get_elem? copied i ≡ get_elem? buf i
  copied_before i h = ground (
    arith,
    get_elem?-append (take offset buf) (take (end - offset) bytes ++ drop end buf) i,
    length-take offset buf,
    get_elem?-take offset buf i,
  )

  copied_inside : (i : ℕ) → offset ≤ i → i < end → get_elem? copied i ≡ get_elem? bytes (i - offset)
  copied_inside i h below = ground (
    arith,
    get_elem?-append (take offset buf) (take (end - offset) bytes ++ drop end buf) i,
    length-take offset buf,
    length-take (end - offset) bytes,
    get_elem?-append (take (end - offset) bytes) (drop end buf) (i - offset),
    get_elem?-take (end - offset) bytes (i - offset),
  )

  copied_behind : (i : ℕ) → end ≤ i → get_elem? copied i ≡ get_elem? buf i
  copied_behind i h =
      let at : i - offset - (end - offset) ≡ i - end = omega arith in
      let back : end + (i - end) ≡ i = omega arith in
      let found : get_elem? (drop end buf) (i - end) ≡ get_elem? buf i =
        get_elem?-drop end buf (i - end) ∙ ap (get_elem? buf) back in
      ground (
        arith,
        get_elem?-append (take offset buf) (take (end - offset) bytes ++ drop end buf) i,
        length-take offset buf,
        length-take (end - offset) bytes,
        get_elem?-append (take (end - offset) bytes) (drop end buf) (i - offset),
      )

  pub copy_piece-CopyOf :
      (new : Bytes) × (copy_piece buf offset end bytes ≡ ok new) × CopyOf buf bytes offset end new
  copy_piece-CopyOf = (
    copied,
    copy_piece_lem,
    record {
      length_same = length-copied;
      before_kept = copied_before;
      inside_kept = copied_inside;
      behind_kept = copied_behind;
    },
  )
