-- ===== src/Bencode/Totality.antt =====
-- How the parser of src/bencode.rs moves on, and ends.
use codecrafters_bittorrent.Prelude.{
  ℕ, zero, suc, ◌+◌, ◌-◌, ◌*◌, ◌%◌, ◌^◌, ◌<◌, ◌≤◌, ◌≡◌, refl, ◌⊎◌, inl, inr, List, [], ◌∷◌, Bytes,
  length, length-drop, take, get_elem?, Option, none, some, ok, err, ◌>>=◌, ltb, ◌==◌, Bool-cases,
  Option-cases, arith,
}
use codecrafters_bittorrent.Utils.RawBytes.{Text, to_raw_string}
use codecrafters_bittorrent.Bencode.Decimal.{parse_usize}
use codecrafters_bittorrent.Bencode.Value.{Value, string, array, object, Fields, end, cons, nil}
use codecrafters_bittorrent.Bencode.Parser.{
  panicked, BencodeParser, P, new, advance_by, peek, remaining_slice, expect, expect_byte, position,
  parse_i64, read_string, parse_string, parse_integer, Prefix, integer, list, dictionary, text,
  unhandled, prefix_of, string_key, parse_value, parse_items, parse_fields, ensure_consumed,
  parse_bytes,
}

-- Something was read from the same input, and the parser moved on inside of it; or a panic.
data Settled {A : Type 0} (p : BencodeParser) : P A → Type 0 where
  got :
      (a : A) (i : ℕ)
      → p.index < i
      → i ≤ length p.input
      → Settled p (ok (a, record p { index = i }))
  failed : Settled p (err panicked)

-- The same from a place further on.
Settled-later :
    {A : Type 0} (p : BencodeParser) (i : ℕ) (r : P A)
    → p.index ≤ i
    → Settled (record p { index = i }) r
    → Settled p r
Settled-later p i _ h (got a j before inside) = got a j (omega arith) inside
Settled-later p i _ h failed = failed

Settled-bind :
    {A B : Type 0} (p : BencodeParser) (r : P A) (f : A × BencodeParser → P B)
    → Settled p r
    → ((a : A) (i : ℕ)
        → p.index < i
        → i ≤ length p.input
        → Settled p (f (a, record p { index = i })))
    → Settled p (r >>= f)
Settled-bind p _ f (got a i before inside) next = next a i before inside
Settled-bind p _ f failed next = failed

Settled-expect :
    {A B : Type 0} (p : BencodeParser) (o : Option A) (f : A → P B)
    → ((a : A) → o ≡ some a → Settled p (f a))
    → Settled p (expect o >>= f)
Settled-expect p none f next = failed
Settled-expect p (some a) f next = next a refl

get_elem?-lt {ℓ} :
    {A : Type ℓ} (xs : List A) (i : ℕ) (x : A) → get_elem? xs i ≡ some x → i < length xs
get_elem?-lt [] i x e = cc
get_elem?-lt (y ∷ xs) zero x e = omega arith
get_elem?-lt (y ∷ xs) (suc i) x e = omega (arith, get_elem?-lt xs i x e)

Settled-expect_byte :
    {B : Type 0} (c : ℕ) (p : BencodeParser) (f : BencodeParser → P B)
    → (p.index < length p.input → Settled p (f (advance_by 1 p)))
    → Settled p (expect_byte c p >>= f)
unfolding expect_byte
Settled-expect_byte c p f next = elim (Option-cases (peek p)) [
  | inl e ↦ rw (e, expect_byte) failed
  | inr (b, e) ↦ elim (Bool-cases (b == c)) [
    | inl same ↦ rw (e, same, expect_byte) (next (get_elem?-lt p.input p.index b e))
    | inr other ↦ rw (e, other, expect_byte) failed
  ]
]

position-lt : (b : ℕ) (cs : Bytes) (n : ℕ) → position b cs ≡ some n → n < length cs
unfolding position
position-lt b [] n e = cc
position-lt b (c ∷ cs) n e = elim (Bool-cases (c == b)) [
  | inl same ↦ ground arith
  | inr other ↦ elim (Option-cases (position b cs)) [
    | inl f ↦ ground arith
    | inr (m, f) ↦ ground (arith, position-lt b cs m f)
  ]
]

parse_integer-Settled : (p : BencodeParser) → Settled p (parse_integer p)
unfolding parse_integer
parse_integer-Settled p = Settled-expect_byte 105 p _ λ inside.
    Settled-expect p (position 101 (remaining_slice (advance_by 1 p))) _ λ n e.
      Settled-expect p (parse_i64 (take n (remaining_slice (advance_by 1 p)))) _ λ v _.
        let room = position-lt 101 (remaining_slice (advance_by 1 p)) n e in
        let left = length-drop (p.index + 1) p.input in
        got (Value.number v) (p.index + 1 + (n + 1)) (omega arith) (omega arith)

read_string-Settled :
    (n : ℕ) (p : BencodeParser)
    → (read_string n p ≡ err panicked)
      ⊎ ((s : Text) × (i : ℕ) × (p.index ≤ i)
          × (i ≤ length p.input)
          × (read_string n p ≡ ok (s, record p { index = i })))
unfolding read_string
read_string-Settled n p =
    let end = (p.index + n) % 2 ^ 64 in
    elim (Bool-cases (ltb (length p.input) end)) [
      | inl over ↦ rw over (inl refl)
      | inr fits ↦ elim (Bool-cases (ltb end p.index)) [
        | inl wrapped ↦ rw (fits, wrapped) (inl refl)
        | inr ordered ↦
            rw (fits, ordered)
              (inr
                (to_raw_string (take n (remaining_slice p)), end, ground arith, ground arith, refl))
      ]
    ]

parse_string-Settled : (p : BencodeParser) → Settled p (parse_string p)
unfolding parse_string
parse_string-Settled p = Settled-expect p (position 58 (remaining_slice p)) _ λ k e.
    Settled-expect p (parse_usize (take k (remaining_slice p))) _ λ n _.
      let room = position-lt 58 (remaining_slice p) k e in
      let left = length-drop p.index p.input in
      elim (read_string-Settled n (advance_by (k + 1) p)) [
        | inl bad ↦ rw bad failed
        | inr (s, i, later, inside, good) ↦ rw good (got (string s) i (omega arith) inside)
      ]

Prefix-cases :
    (k : Prefix)
    → (k ≡ integer) ⊎ ((k ≡ list) ⊎ ((k ≡ dictionary) ⊎ ((k ≡ text) ⊎ (k ≡ unhandled))))
Prefix-cases integer = inl refl
Prefix-cases list = inr (inl refl)
Prefix-cases dictionary = inr (inr (inl refl))
Prefix-cases text = inr (inr (inr (inl refl)))
Prefix-cases unhandled = inr (inr (inr (inr refl)))

Settled-key :
    {B : Type 0} (p : BencodeParser) (v : Value) (f : Text → P B)
    → ((key : Text) → Settled p (f key))
    → Settled p (string_key v >>= f)
unfolding string_key
Settled-key p (string s) f next = next s
Settled-key p v f next = failed

module _ (insert : Text → Value → Fields → Fields) where
  mutual
    unfolding parse_value

    value-Settled :
        (fuel : ℕ) (p : BencodeParser)
        → 2 * (length p.input - p.index) < fuel
        → Settled p (parse_value insert fuel p)
    value-Settled zero p enough = absurd (omega arith)
    value-Settled (suc fuel) p enough = elim (Option-cases (peek p)) [
      | inl e ↦ rw (e, parse_value) failed
      | inr (c, e) ↦
          let inside = get_elem?-lt p.input p.index c e in
          elim (Prefix-cases (prefix_of c)) [
            | inl k ↦ rw (e, k, parse_value) (parse_integer-Settled p)
            | inr (inl k) ↦
                rw (e, k, parse_value)
                  (Settled-expect_byte 108 p _ λ _. Settled-later p (p.index + 1) _ (omega arith) (
                    Settled-bind (advance_by 1 p) (parse_items insert fuel (advance_by 1 p)) _
                      (items-Settled fuel (advance_by 1 p) (omega arith))
                      λ items i before within. got (array items) i before within))
            | inr (inr (inl k)) ↦
                rw (e, k, parse_value)
                  (Settled-expect_byte 100 p _ λ _. Settled-later p (p.index + 1) _ (omega arith) (
                    Settled-bind (advance_by 1 p) (parse_fields insert fuel end (advance_by 1 p)) _
                      (fields-Settled fuel end (advance_by 1 p) (omega arith))
                      λ fields i before within. got (object fields) i before within))
            | inr (inr (inr (inl k))) ↦ rw (e, k, parse_value) (parse_string-Settled p)
            | inr (inr (inr (inr k))) ↦ rw (e, k, parse_value) failed
          ]
    ]

    items-Settled :
        (fuel : ℕ) (p : BencodeParser)
        → 2 * (length p.input - p.index) + 1 < fuel
        → Settled p (parse_items insert fuel p)
    items-Settled zero p enough = absurd (omega arith)
    items-Settled (suc fuel) p enough = elim (Option-cases (peek p)) [
      | inl e ↦ rw (e, parse_items) failed
      | inr (c, e) ↦
          let inside = get_elem?-lt p.input p.index c e in
          elim (Bool-cases (c == 101)) [
            | inl over ↦
                rw (e, over, parse_items) (got nil (p.index + 1) (omega arith) (omega arith))
            | inr more ↦
                rw (e, more, parse_items)
                  (Settled-bind p (parse_value insert fuel p) _ (value-Settled fuel p (omega arith))
                    λ v i before within. Settled-later p i _ (omega arith) (
                      Settled-bind (record p { index = i })
                        (parse_items insert fuel (record p { index = i })) _
                        (items-Settled fuel (record p { index = i }) (omega arith))
                        λ items j before' within'. got (cons v items) j before' within'))
          ]
    ]

    fields-Settled :
        (fuel : ℕ) (fields : Fields) (p : BencodeParser)
        → 2 * (length p.input - p.index) + 1 < fuel
        → Settled p (parse_fields insert fuel fields p)
    fields-Settled zero fields p enough = absurd (omega arith)
    fields-Settled (suc fuel) fields p enough = elim (Option-cases (peek p)) [
      | inl e ↦ rw (e, parse_fields) failed
      | inr (c, e) ↦
          let inside = get_elem?-lt p.input p.index c e in
          elim (Bool-cases (c == 101)) [
            | inl over ↦
                rw (e, over, parse_fields) (got fields (p.index + 1) (omega arith) (omega arith))
            | inr more ↦
                rw (e, more, parse_fields)
                  (Settled-bind p (parse_value insert fuel p) _ (value-Settled fuel p (omega arith))
                    λ k i before within. Settled-later p i _ (omega arith) (
                      Settled-key (record p { index = i }) k _
                        λ key.
                          Settled-bind (record p { index = i })
                            (parse_value insert fuel (record p { index = i })) _
                            (value-Settled fuel (record p { index = i }) (omega arith))
                            λ v j before' within'.
                              Settled-later (record p { index = i }) j _ (omega arith)
                                (fields-Settled fuel (insert key v fields) (record p { index = j })
                                  (omega arith))))
          ]
    ]

  consumed-ends :
      (p : BencodeParser) (r : P Value)
      → Settled p r
      → ((v : Value) × ((r >>= ensure_consumed insert) ≡ ok v))
        ⊎ ((r >>= ensure_consumed insert) ≡ err panicked)
  unfolding ensure_consumed
  consumed-ends p _ (got v i before inside) = elim (Bool-cases (i == length p.input)) [
    | inl whole ↦ inl (v, rw whole refl)
    | inr part ↦ inr (rw part refl)
  ]
  consumed-ends p _ failed = inr refl

  -- Every input is either parsed to a value or refused by a panic: the parser ends, and its fuel never
  -- runs out.
  pub parse_bytes_ends :
      (bytes : Bytes)
      → ((v : Value) × (parse_bytes insert bytes ≡ ok v))
        ⊎ (parse_bytes insert bytes ≡ err panicked)
  unfolding parse_bytes
  parse_bytes_ends bytes =
      consumed-ends (new bytes) (parse_value insert (2 * length bytes + 1) (new bytes))
        (value-Settled (2 * length bytes + 1) (new bytes) (unfold new in omega arith))
