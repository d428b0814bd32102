-- ===== src/Bencode/Encode.antt =====
-- `encode` of src/bencode.rs.
use codecrafters_bittorrent.Prelude.{
  ℕ, suc, Bool, true, false, List, [], ◌∷◌, ◌++◌, Bytes, length, Option, none, some, leb, ltb, ◌==◌,
  if◌then◌else◌,
}
use codecrafters_bittorrent.Utils.RawBytes.{Text, to_raw_bytes}
use codecrafters_bittorrent.Bencode.Decimal.{decimal, i64_max}
use codecrafters_bittorrent.Bencode.Value.{
  Number, pos_int, neg_int, float, Value, null, bool, number, string, array, object, Items, nil,
  cons, Fields, end, field,
}

-- `<` of strings, which compares them code point by code point.
unfoldable pub text_ltb : Text → Text → Bool
text_ltb [] [] = false
text_ltb [] (y ∷ ys) = true
text_ltb (x ∷ xs) [] = false
text_ltb (x ∷ xs) (y ∷ ys) = if ltb x y then true else if x == y then text_ltb xs ys else false

-- `as_i64`, and `format!` of what it gives.
unfoldable pub format_i64 : Number → Option Text
format_i64 (pos_int n) = if leb n i64_max then some (decimal n) else none
format_i64 (neg_int n) = some (45 ∷ decimal (suc n))
format_i64 float = none

-- The code points of a text count as its bytes.
unfoldable pub encode_string : Text → Bytes
encode_string s = decimal (length s) ++ 58 ∷ to_raw_bytes s

-- One entry among those that are sorted by their keys.
unfoldable pub insert_sorted : Text × Bytes → List (Text × Bytes) → List (Text × Bytes)
insert_sorted e [] = e ∷ []
insert_sorted e (e' ∷ es) = if text_ltb e'.0 e.0 then e' ∷ insert_sorted e es else e ∷ e' ∷ es

-- `keys.sort()`, with the values along.
unfoldable pub sort_entries : List (Text × Bytes) → List (Text × Bytes)
unfolding insert_sorted
sort_entries [] = []
sort_entries (e ∷ es) = insert_sorted e (sort_entries es)

unfoldable pub concat_entries : List (Text × Bytes) → Bytes
concat_entries [] = []
concat_entries ((key, bytes) ∷ es) = encode_string key ++ (bytes ++ concat_entries es)

abbrev pub wrapped : ℕ → Option Bytes → Option Bytes
wrapped c none = none
wrapped c (some bytes) = some (c ∷ (bytes ++ 101 ∷ []))

abbrev pub then_bytes : Option Bytes → Option Bytes → Option Bytes
then_bytes none rest = none
then_bytes (some bytes) none = none
then_bytes (some bytes) (some rest) = some (bytes ++ rest)

abbrev pub then_entry :
    Text → Option Bytes → Option (List (Text × Bytes)) → Option (List (Text × Bytes))
then_entry key none rest = none
then_entry key (some bytes) none = none
then_entry key (some bytes) (some rest) = some ((key, bytes) ∷ rest)

abbrev pub sorted_bytes : Option (List (Text × Bytes)) → Option Bytes
sorted_bytes none = none
sorted_bytes (some es) = some (concat_entries (sort_entries es))

-- `none` is the error "Only integer numbers are supported in bencode".
unfoldable mutual
  unfolding format_i64

  pub encode : Value → Option Bytes
  encode null = some (108 ∷ 101 ∷ [])
  encode (bool true) = some (105 ∷ 49 ∷ 101 ∷ [])
  encode (bool false) = some (105 ∷ 48 ∷ 101 ∷ [])
  encode (number n) = wrapped 105 (format_i64 n)
  encode (string s) = some (encode_string s)
  encode (array items) = wrapped 108 (encode_items items)
  encode (object fields) = wrapped 100 (sorted_bytes (encode_fields fields))

  pub encode_items : Items → Option Bytes
  encode_items nil = some []
  encode_items (cons v items) = then_bytes (encode v) (encode_items items)

  pub encode_fields : Fields → Option (List (Text × Bytes))
  encode_fields end = some []
  encode_fields (field key v fields) = then_entry key (encode v) (encode_fields fields)
