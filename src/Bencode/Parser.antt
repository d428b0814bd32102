-- ===== src/Bencode/Parser.antt =====
-- `BencodeParser` of src/bencode.rs. Its panics are one error; the calls that a value inside another one
-- takes are counted by fuel.
use codecrafters_bittorrent.Prelude.{
  ℕ, zero, suc, ◌+◌, ◌*◌, ◌%◌, ◌^◌, true, false, [], ◌∷◌, Bytes, length, take, drop, get_elem?,
  Option, none, some, Result, ok, err, ◌>>=◌, ltb, ◌==◌, if◌then◌else◌,
}
use codecrafters_bittorrent.Utils.RawBytes.{Text, to_raw_string}
use codecrafters_bittorrent.Bencode.Decimal.{is_ascii_digit, i64_max, parse_usize, parse_digits}
use codecrafters_bittorrent.Bencode.Value.{
  Number, pos_int, neg_int, Value, number, string, array, object, Items, nil, cons, Fields, end,
}

pub data ParseError : Type 0 where
  panicked out_of_fuel : ParseError

pub record BencodeParser : Type 0 where
  pub input : Bytes
  pub index : ℕ

abbrev pub P : Type 0 → Type 0
P A = Result ParseError (A × BencodeParser)

unfoldable pub new : Bytes → BencodeParser
new input = record { input = input; index = 0 }

abbrev pub advance_by : ℕ → BencodeParser → BencodeParser
advance_by k p = record p { index = p.index + k }

abbrev pub peek : BencodeParser → Option ℕ
peek p = get_elem? p.input p.index

abbrev pub remaining_slice : BencodeParser → Bytes
remaining_slice p = drop p.index p.input

unfoldable pub expect_byte : ℕ → BencodeParser → Result ParseError BencodeParser
expect_byte expected p = elim (peek p) [
  | none ↦ err panicked
  | some c ↦ if c == expected then ok (advance_by 1 p) else err panicked
]

-- Where a byte first stands.
unfoldable pub position : ℕ → Bytes → Option ℕ
position b [] = none
position b (c ∷ cs) = elim (c == b) [
  | true ↦ some 0
  | false ↦ elim (position b cs) [ none ↦ none | some n ↦ some (suc n) ]
]

-- `expect`: the value, or a panic.
abbrev pub expect {ℓ} : {A : Type ℓ} → Option A → Result ParseError A
expect none = err panicked
expect (some a) = ok a

abbrev pub negated : ℕ → Number
negated zero = pos_int 0
negated (suc n) = neg_int n

-- `parse::<i64>` and `Number::from`.
unfoldable pub parse_i64 : Bytes → Option Number
parse_i64 [] = none
parse_i64 (c ∷ cs) =
    if c == 45
    then elim (parse_digits (i64_max + 1) cs) [ none ↦ none | some n ↦ some (negated n) ]
    else (elim (if c == 43 then parse_digits i64_max cs else parse_digits i64_max (c ∷ cs)) [
      | none ↦ none
      | some n ↦ some (pos_int n)
    ])

-- The bytes of a string of the given length, with the parser behind its colon. The sum wraps; then the
-- slice is out of order, which panics too.
unfoldable pub read_string : ℕ → BencodeParser → P Text
read_string byte_length p =
    let end = (p.index + byte_length) % 2 ^ 64 in
    if ltb (length p.input) end
    then err panicked
    else if ltb end p.index
    then err panicked
    else ok (to_raw_string (take byte_length (drop p.index p.input)), record p { index = end })

unfoldable pub parse_string : BencodeParser → P Value
unfolding read_string
parse_string p = do
  colon_offset ← expect (position 58 (remaining_slice p))
  byte_length ← expect (parse_usize (take colon_offset (remaining_slice p)))
  (text, p₁) ← read_string byte_length (advance_by (colon_offset + 1) p)
  ok (string text, p₁)

unfoldable pub parse_integer : BencodeParser → P Value
parse_integer p = do
  p₁ ← expect_byte 105 p
  end_offset ← expect (position 101 (remaining_slice p₁))
  n ← expect (parse_i64 (take end_offset (remaining_slice p₁)))
  ok (number n, advance_by (end_offset + 1) p₁)

-- What the first byte of a value announces.
pub data Prefix : Type 0 where
  integer list dictionary text unhandled : Prefix

unfoldable pub prefix_of : ℕ → Prefix
prefix_of c =
    if c == 105
    then integer
    else if c == 108
    then list
    else if c == 100
    then dictionary
    else if is_ascii_digit c
    then text
    else unhandled

unfoldable pub string_key : Value → Result ParseError Text
string_key (string key) = ok key
string_key _ = err panicked

-- `insert` is that of a map of serde_json.
module _ (insert : Text → Value → Fields → Fields) where
  unfoldable mutual
    unfolding parse_string parse_integer prefix_of expect_byte string_key

    pub parse_value : ℕ → BencodeParser → P Value
    parse_value zero p = err out_of_fuel
    parse_value (suc fuel) p = elim (peek p) [
      | none ↦ err panicked
      | some c ↦ elim (prefix_of c) [
        | integer ↦ parse_integer p
        | list ↦ do p₁ ← expect_byte 108 p; (items, p₂) ← parse_items fuel p₁; ok (array items, p₂)
        | dictionary ↦ do
          p₁ ← expect_byte 100 p
          (fields, p₂) ← parse_fields fuel end p₁
          ok (object fields, p₂)
        | text ↦ parse_string p
        | unhandled ↦ err panicked
      ]
    ]

    -- The loop of `parse_list`.
    pub parse_items : ℕ → BencodeParser → P Items
    parse_items zero p = err out_of_fuel
    parse_items (suc fuel) p = elim (peek p) [
      | none ↦ err panicked
      | some c ↦ elim (c == 101) [
        | true ↦ ok (nil, advance_by 1 p)
        | false ↦ do
          (value, p₁) ← parse_value fuel p
          (items, p₂) ← parse_items fuel p₁
          ok (cons value items, p₂)
      ]
    ]

    -- The loop of `parse_dictionary`.
    pub parse_fields : ℕ → Fields → BencodeParser → P Fields
    parse_fields zero fields p = err out_of_fuel
    parse_fields (suc fuel) fields p = elim (peek p) [
      | none ↦ err panicked
      | some c ↦ elim (c == 101) [
        | true ↦ ok (fields, advance_by 1 p)
        | false ↦ do
          (key_value, p₁) ← parse_value fuel p
          key ← string_key key_value
          (value, p₂) ← parse_value fuel p₁
          parse_fields fuel (insert key value fields) p₂
      ]
    ]

  unfoldable pub ensure_consumed : Value × BencodeParser → Result ParseError Value
  ensure_consumed (value, p) = if p.index == length p.input then ok value else err panicked

  unfoldable pub parse_bytes : Bytes → Result ParseError Value
  unfolding new parse_value ensure_consumed
  parse_bytes encoded_value = do
    r ← parse_value (2 * length encoded_value + 1) (new encoded_value)
    ensure_consumed r
