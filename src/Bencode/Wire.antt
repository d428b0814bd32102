-- ===== src/Bencode/Wire.antt =====
-- The bencoding of a value that has one, and `encode` of src/bencode.rs, which writes it.
use codecrafters_bittorrent.Prelude.{
  ℕ, ◌^◌, ◌<◌, ◌≡◌, ◌≢◌, refl, ap, ◌∙◌, true, false, List, [], ◌∷◌, ◌++◌, Bytes, All, IsByte,
  length, some, arith,
}
use codecrafters_bittorrent.Utils.RawBytes.{Text, to_raw_bytes-eq}
use codecrafters_bittorrent.Bencode.Decimal.{decimal, decimal-cons}
use codecrafters_bittorrent.Bencode.Value.{
  Number, pos_int, neg_int, float, Value, null, bool, number, string, array, object, Items, nil,
  cons, Fields, end, field,
}
use codecrafters_bittorrent.Bencode.Encode.{
  text_ltb, format_i64, encode_string, insert_sorted, sort_entries, concat_entries, encode,
  encode_items, encode_fields,
}
use codecrafters_bittorrent.Bencode.Scan.{number_text, InRange}

-- Bytes, in one character each, as many as a number of 64 bits counts.
abbrev pub IsText : Text → Type 0
IsText s = All IsByte s × (length s < 2 ^ 64)

-- All keys are below the key.
abbrev pub KeysBelow : Text → Fields → Type 0
KeysBelow key end = Unit
KeysBelow key (field k v fields) = (text_ltb k key ≡ true) × KeysBelow key fields

abbrev pub snoc : Fields → Text → Value → Fields
snoc end key value = field key value end
snoc (field k v fields) key value = field k v (snoc fields key value)

-- The values that bencode has: integers of 64 bits, strings of bytes, lists, and dictionaries with
-- ascending keys. The fields of a dictionary follow those in the first argument.
unfoldable mutual
  pub IsCanonical : Value → Type 0
  IsCanonical null = ⊥
  IsCanonical (bool b) = ⊥
  IsCanonical (number n) = InRange n
  IsCanonical (string s) = IsText s
  IsCanonical (array items) = AreCanonical items
  IsCanonical (object fields) = AreAscending fields end

  pub AreCanonical : Items → Type 0
  AreCanonical nil = Unit
  AreCanonical (cons v items) = IsCanonical v × AreCanonical items

  pub AreAscending : Fields → Fields → Type 0
  AreAscending end before = Unit
  AreAscending (field key v fields) before =
      IsText key × IsCanonical v × KeysBelow key before × AreAscending fields (snoc before key v)

abbrev pub wire_string : Text → Bytes
wire_string s = decimal (length s) ++ 58 ∷ s

unfoldable mutual
  unfolding number_text

  pub wire : Value → Bytes
  wire null = []
  wire (bool b) = []
  wire (number n) = 105 ∷ (number_text n ++ 101 ∷ [])
  wire (string s) = wire_string s
  wire (array items) = 108 ∷ (wire_items items ++ 101 ∷ [])
  wire (object fields) = 100 ∷ (wire_fields fields ++ 101 ∷ [])

  pub wire_items : Items → Bytes
  wire_items nil = []
  wire_items (cons v items) = wire v ++ wire_items items

  pub wire_fields : Fields → Bytes
  wire_fields end = []
  wire_fields (field key v fields) = wire_string key ++ (wire v ++ wire_fields fields)

entries : Fields → List (Text × Bytes)
entries end = []
entries (field key v fields) = (key, wire v) ∷ entries fields

text_ltb_asym : (xs ys : Text) → text_ltb xs ys ≡ true → text_ltb ys xs ≡ false
unfolding text_ltb
text_ltb_asym [] [] h = refl
text_ltb_asym [] (y ∷ ys) h = refl
text_ltb_asym (x ∷ xs) [] h = cc
text_ltb_asym (x ∷ xs) (y ∷ ys) h = ground (arith, text_ltb_asym xs ys)

KeysBelow-snoc :
    (key k : Text) (v : Value) (before : Fields)
    → KeysBelow key (snoc before k v)
    → text_ltb k key ≡ true
KeysBelow-snoc key k v end h = h.0
KeysBelow-snoc key k v (field k' v' before) h = KeysBelow-snoc key k v before h.1

sort_entries-entries :
    (fields before : Fields)
    → AreAscending fields before
    → sort_entries (entries fields) ≡ entries fields
unfolding sort_entries entries IsCanonical
sort_entries-entries end before h = refl
sort_entries-entries (field key v end) before h = refl
sort_entries-entries (field key v (field k w fields)) before h =
    let above : text_ltb key k ≡ true = KeysBelow-snoc k key v before h.3.2 in
    let not_below : text_ltb k key ≡ false = text_ltb_asym key k above in
    ap (insert_sorted (key, wire v))
      (sort_entries-entries (field k w fields) (snoc before key v) h.3)
    ∙ rw (not_below, insert_sorted) refl

concat_entries-entries :
    (fields before : Fields)
    → AreAscending fields before
    → concat_entries (entries fields) ≡ wire_fields fields
unfolding concat_entries entries encode_string wire IsCanonical
concat_entries-entries end before h = refl
concat_entries-entries (field key v fields) before h =
    rw (to_raw_bytes-eq key h.0.0, concat_entries-entries fields (snoc before key v) h.3) refl

format_i64-number_text : (n : Number) → InRange n → format_i64 n ≡ some (number_text n)
unfolding format_i64 number_text
format_i64-number_text (pos_int n) h = ground arith
format_i64-number_text (neg_int n) h = refl
format_i64-number_text float h = absurd h

mutual
  unfolding encode wire entries encode_string IsCanonical

  encode-wire' : (v : Value) → IsCanonical v → encode v ≡ some (wire v)
  encode-wire' null h = absurd h
  encode-wire' (bool b) h = absurd h
  encode-wire' (number n) h = rw (format_i64-number_text n h) refl
  encode-wire' (string s) h = rw (to_raw_bytes-eq s h.0) refl
  encode-wire' (array items) h = rw (encode_items-wire_items items h) refl
  encode-wire' (object fields) h =
      rw
        (
          encode_fields-entries fields end h,
          sort_entries-entries fields end h,
          concat_entries-entries fields end h,
        )
        refl

  encode_items-wire_items :
      (items : Items) → AreCanonical items → encode_items items ≡ some (wire_items items)
  encode_items-wire_items nil h = refl
  encode_items-wire_items (cons v items) h =
      rw (encode-wire' v h.0, encode_items-wire_items items h.1) refl

  encode_fields-entries :
      (fields before : Fields)
      → AreAscending fields before
      → encode_fields fields ≡ some (entries fields)
  encode_fields-entries end before h = refl
  encode_fields-entries (field key v fields) before h =
      rw (encode-wire' v h.1, encode_fields-entries fields (snoc before key v) h.3) refl

-- A canonical value is encoded as its bencoding.
pub encode-wire : (v : Value) → IsCanonical v → encode v ≡ some (wire v)
encode-wire v h = encode-wire' v h

-- A bencoding does not start with the byte that ends a list.
pub wire-cons : (v : Value) → IsCanonical v → (c : ℕ) × (cs : Bytes) × (wire v ≡ c ∷ cs) × (c ≢ 101)
unfolding wire IsCanonical
wire-cons null h = absurd h
wire-cons (bool b) h = absurd h
wire-cons (number n) h = (105, _, refl, λ e. omega arith)
wire-cons (string s) h =
    let (c, cs, e, d) = decimal-cons (length s) in
    (c, cs ++ 58 ∷ s, ap (λ l. l ++ 58 ∷ s) e, λ f. omega arith)
wire-cons (array items) h = (108, _, refl, λ e. omega arith)
wire-cons (object fields) h = (100, _, refl, λ e. omega arith)
