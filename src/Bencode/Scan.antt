-- ===== src/Bencode/Scan.antt =====
-- What `BencodeParser` of src/bencode.rs reads of numbers and strings at its position.
use codecrafters_bittorrent.Prelude.{
  ℕ, zero, suc, ◌+◌, ◌-◌, ◌%◌, ◌^◌, ◌<◌, ◌≤◌, ◌≡◌, ◌≢◌, refl, sym, ap, ◌∙◌, ==_refl, false, List,
  [], ◌∷◌, ◌++◌, Bytes, All, length, length-append, length-drop, take, drop, take-append_exact,
  drop-append_exact, get_elem?, some, ok, ltb, append_assoc, ◌==◌, arith,
}
use codecrafters_bittorrent.Utils.RawBytes.{Text, to_raw_string_lem}
use codecrafters_bittorrent.Bencode.Decimal.{
  u64_max, IsDigit, decimal, decimal-IsDigit, decimal-cons, parse_digits-decimal,
  parse_unsigned-decimal, parse_digits, i64_max,
}
use codecrafters_bittorrent.Bencode.Value.{Number, pos_int, neg_int, float, number, string}
use codecrafters_bittorrent.Bencode.Parser.{
  BencodeParser, position, expect_byte, parse_i64, read_string, parse_string, parse_integer,
  advance_by, remaining_slice,
}

-- What `drop` leaves, followed along.
pub get_elem?-drop {ℓ} :
    {A : Type ℓ} (i : ℕ) (xs : List A) (x : A) (rest : List A)
    → drop i xs ≡ x ∷ rest
    → get_elem? xs i ≡ some x
get_elem?-drop zero [] x rest e = cc
get_elem?-drop zero (y ∷ xs) x rest e = cc
get_elem?-drop (suc i) [] x rest e = cc
get_elem?-drop (suc i) (y ∷ xs) x rest e = get_elem?-drop i xs x rest e

drop-nil {ℓ} : {A : Type ℓ} (n : ℕ) → drop {A = A} n [] ≡ []
drop-nil zero = refl
drop-nil (suc n) = refl

pub drop-drop_exact {ℓ} :
    {A : Type ℓ} (i total : ℕ) (xs part rest : List A)
    → drop i xs ≡ part ++ rest
    → total ≡ i + length part
    → drop total xs ≡ rest
drop-drop_exact zero total xs part rest e h =
    ap (drop total) e ∙ drop-append_exact total part rest (omega arith)
drop-drop_exact (suc i) total [] [] rest e h = drop-nil total ∙ e
drop-drop_exact (suc i) total [] (x ∷ part) rest e h = cc
drop-drop_exact (suc i) zero (x ∷ xs) part rest e h = absurd (omega arith)
drop-drop_exact (suc i) (suc total) (x ∷ xs) part rest e h =
    drop-drop_exact i total xs part rest e (omega arith)

position-append :
    (b : ℕ) (xs rest : Bytes) → All (λ c. c ≢ b) xs → position b (xs ++ b ∷ rest) ≡ some (length xs)
unfolding position
position-append b [] rest h = rw (==_refl b, position) refl
position-append b (x ∷ xs) rest h =
    let other : (x == b) ≡ false = ground (arith, h.0) in
    rw (other, position-append b xs rest h.1, position) refl

All-map {ℓ κ κ'} :
    {A : Type ℓ} {Q : A → Type κ} {R : A → Type κ'} (xs : List A)
    → ((x : A) → Q x → R x)
    → All Q xs
    → All R xs
All-map [] f h = tt
All-map (x ∷ xs) f h = (f x h.0, All-map xs f h.1)

-- Where digits end.
position-digits :
    (b : ℕ) (xs rest : Bytes)
    → 57 < b
    → All IsDigit xs
    → position b (xs ++ b ∷ rest) ≡ some (length xs)
position-digits b xs rest above h = position-append b xs rest (All-map xs (λ c d e. omega arith) h)

unfoldable pub number_text : Number → Text
number_text (pos_int n) = decimal n
number_text (neg_int n) = 45 ∷ decimal (suc n)
number_text float = []

-- The integers of 64 bits.
abbrev pub InRange : Number → Type 0
InRange (pos_int n) = n ≤ i64_max
InRange (neg_int n) = n ≤ i64_max
InRange float = ⊥

position-number_text :
    (n : Number) (rest : Bytes)
    → position 101 (number_text n ++ 101 ∷ rest) ≡ some (length (number_text n))
unfolding number_text
position-number_text (pos_int n) rest =
    position-digits 101 (decimal n) rest (omega arith) (decimal-IsDigit n)
position-number_text (neg_int n) rest =
    position-append 101 (45 ∷ decimal (suc n)) rest
      (λ e. omega arith, All-map (decimal (suc n)) (λ c d e. omega arith) (decimal-IsDigit (suc n)))
position-number_text float rest = position-append 101 [] rest tt

parse_i64-number_text : (n : Number) → InRange n → parse_i64 (number_text n) ≡ some n
unfolding parse_i64 number_text
parse_i64-number_text (pos_int n) h =
    let (c, cs, e, d) = decimal-cons n in
    let no_minus : (c == 45) ≡ false = ground arith in
    let no_plus : (c == 43) ≡ false = ground arith in
    let read : parse_digits i64_max (c ∷ cs) ≡ some n =
      ap (parse_digits i64_max) (sym e) ∙ parse_digits-decimal i64_max n (omega arith) h in
    ap parse_i64 e ∙ rw (no_minus, no_plus, read, parse_i64) refl
parse_i64-number_text (neg_int n) h =
    rw (parse_digits-decimal (i64_max + 1) (suc n) (omega arith) (omega arith), parse_i64) refl
parse_i64-number_text float h = absurd h

pub expect_byte_lem :
    (c : ℕ) (p : BencodeParser) (rest : Bytes)
    → remaining_slice p ≡ c ∷ rest
    → expect_byte c p ≡ ok (advance_by 1 p)
unfolding expect_byte
expect_byte_lem c p rest e =
    rw (get_elem?-drop p.index p.input c rest e, ==_refl c, expect_byte) refl

pub remaining_slice-advance_by :
    (k : ℕ) (p : BencodeParser) (part rest : Bytes)
    → remaining_slice p ≡ part ++ rest
    → k ≡ length part
    → remaining_slice (advance_by k p) ≡ rest
remaining_slice-advance_by k p part rest e h =
    drop-drop_exact p.index (p.index + k) p.input part rest e (omega arith)

-- An integer is read, and the parser stands behind it.
pub parse_integer_lem :
    (n : Number) (p : BencodeParser) (rest : Bytes) (total : ℕ)
    → InRange n
    → remaining_slice p ≡ 105 ∷ (number_text n ++ 101 ∷ rest)
    → total ≡ p.index + 1 + length (number_text n) + 1
    → parse_integer p ≡ ok (number n, record p { index = total })
unfolding parse_integer
parse_integer_lem n p rest total h e t =
    let here = remaining_slice-advance_by 1 p (105 ∷ []) (number_text n ++ 101 ∷ rest) e refl in
    let digits = take-append_exact (length (number_text n)) (number_text n) (101 ∷ rest) refl in
    let at : total ≡ p.index + 1 + (length (number_text n) + 1) = omega arith in
    rw
      (
        expect_byte_lem 105 p _ e,
        here,
        position-number_text n rest,
        digits,
        parse_i64-number_text n h,
        at,
      )
      refl

read_string_lem :
    (s : Text) (p : BencodeParser) (rest : Bytes) (total : ℕ)
    → length p.input < 2 ^ 64
    → p.index ≤ length p.input
    → remaining_slice p ≡ s ++ rest
    → total ≡ p.index + length s
    → read_string (length s) p ≡ ok (s, record p { index = total })
unfolding read_string
read_string_lem s p rest total fits inside e t =
    let left : length p.input - p.index ≡ length s + length rest =
      sym (length-drop p.index p.input) ∙ ap length e ∙ length-append s rest in
    let end : (p.index + length s) % 2 ^ 64 ≡ total = omega arith in
    let bound : ltb (length p.input) total ≡ false = ground arith in
    let order : ltb total p.index ≡ false = ground arith in
    let text : take (length s) (remaining_slice p) ≡ s =
      ap (take (length s)) e ∙ take-append_exact (length s) s rest refl in
    rw (end, bound, order, text, to_raw_string_lem s) refl

-- A string is read, and the parser stands behind it.
pub parse_string_lem :
    (s : Text) (p : BencodeParser) (rest : Bytes) (total : ℕ)
    → length p.input < 2 ^ 64
    → length s < 2 ^ 64
    → remaining_slice p ≡ decimal (length s) ++ 58 ∷ (s ++ rest)
    → total ≡ p.index + length (decimal (length s)) + 1 + length s
    → parse_string p ≡ ok (string s, record p { index = total })
unfolding parse_string
parse_string_lem s p rest total fits small e t =
    let size = decimal (length s) in
    let colon : position 58 (remaining_slice p) ≡ some (length size) =
      ap (position 58) e
      ∙ position-digits 58 size (s ++ rest) (omega arith) (decimal-IsDigit (length s)) in
    let digits : take (length size) (remaining_slice p) ≡ size =
      ap (take (length size)) e ∙ take-append_exact (length size) size (58 ∷ (s ++ rest)) refl in
    let split : size ++ 58 ∷ (s ++ rest) ≡ (size ++ 58 ∷ []) ++ (s ++ rest) =
      sym (append_assoc size (58 ∷ []) (s ++ rest)) in
    let behind =
      remaining_slice-advance_by (length size + 1) p (size ++ 58 ∷ []) (s ++ rest) (e ∙ split)
        (sym (length-append size (58 ∷ []))) in
    let left : length p.input - p.index ≡ length size + length (58 ∷ (s ++ rest)) =
      sym (length-drop p.index p.input) ∙ ap length e ∙ length-append size (58 ∷ (s ++ rest)) in
    rw
      (
        colon,
        digits,
        parse_unsigned-decimal u64_max (length s) small (omega arith),
        read_string_lem s (advance_by (length size + 1) p) rest total fits (omega arith) behind
            (omega arith),
      )
      refl
