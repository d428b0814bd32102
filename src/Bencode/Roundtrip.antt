-- ===== src/Bencode/Roundtrip.antt =====
-- `parse_bytes` and `encode` of src/bencode.rs, one behind the other.
use codecrafters_bittorrent.Prelude.{
  ℕ, zero, suc, ◌+◌, ◌*◌, ◌^◌, ◌<◌, ◌≤◌, ◌≡◌, refl, sym, ap, ◌∙◌, some, [], ◌∷◌, ◌++◌, Bytes,
  length, length-append, append_assoc, append-nil, ok, ==_refl, arith,
}
use codecrafters_bittorrent.Utils.RawBytes.{Text}
use codecrafters_bittorrent.Bencode.Decimal.{decimal, decimal-cons}
use codecrafters_bittorrent.Bencode.Value.{
  Value, null, bool, number, string, array, object, Items, nil, cons, Fields, end, field,
}
use codecrafters_bittorrent.Bencode.Encode.{encode}
use codecrafters_bittorrent.Bencode.Parser.{
  BencodeParser, new, advance_by, remaining_slice, string_key, parse_value, parse_items,
  parse_fields, parse_bytes, ensure_consumed,
}
use codecrafters_bittorrent.Bencode.Scan.{
  number_text, parse_integer_lem, parse_string_lem, remaining_slice-advance_by, drop-drop_exact,
}
use codecrafters_bittorrent.Bencode.Steps.{
  parse_value_integer, parse_value_text, parse_value_list, parse_value_dictionary, parse_items_end,
  parse_items_more, parse_fields_end, parse_fields_more,
}
use codecrafters_bittorrent.Bencode.Wire.{
  IsText, KeysBelow, snoc, IsCanonical, AreCanonical, AreAscending, wire_string, wire, wire_items,
  wire_fields, encode-wire, wire-cons,
}

abbrev pub append_fields : Fields → Fields → Fields
append_fields before end = before
append_fields before (field key v fields) = append_fields (snoc before key v) fields

append_fields_field :
    (before fields : Fields) (key : Text) (v : Value)
    → append_fields (field key v before) fields ≡ field key v (append_fields before fields)
append_fields_field before end key v = refl
append_fields_field before (field k w fields) key v =
    append_fields_field (snoc before k w) fields key v

append_fields_end : (fields : Fields) → append_fields end fields ≡ fields
append_fields_end end = refl
append_fields_end (field key v fields) =
    append_fields_field end fields key v ∙ ap (field key v) (append_fields_end fields)

abbrev at : BencodeParser → ℕ → BencodeParser
at p total = record p { index = total }

-- The slice at another place.
remaining_slice-at :
    (p : BencodeParser) (total : ℕ) (part rest : Bytes)
    → remaining_slice p ≡ part ++ rest
    → total ≡ p.index + length part
    → remaining_slice (at p total) ≡ rest
remaining_slice-at p total part rest e t = drop-drop_exact p.index total p.input part rest e t

length-wire : (v : Value) → IsCanonical v → 0 < length (wire v)
length-wire v h = let (c, cs, e, other) = wire-cons v h in omega (arith, ap length e)

-- `insert` appends a key that is above all others, as in a map that is sorted by its keys.
abbrev pub IsOrdered : (Text → Value → Fields → Fields) → Type 0
IsOrdered insert =
    (key : Text) (v : Value) (fields : Fields)
    → KeysBelow key fields
    → insert key v fields ≡ snoc fields key v

parse_string_at :
    (insert : Text → Value → Fields → Fields) (s : Text) (fuel : ℕ) (p : BencodeParser)
    (rest : Bytes) (total : ℕ)
    → 0 < fuel
    → IsText s
    → length p.input < 2 ^ 64
    → remaining_slice p ≡ wire_string s ++ rest
    → total ≡ p.index + length (wire_string s)
    → parse_value insert fuel p ≡ ok (string s, at p total)
parse_string_at insert s zero p rest total pos h fits e t = absurd (omega arith)
parse_string_at insert s (suc fuel) p rest total pos h fits e t =
    let (c, cs, f, d) = decimal-cons (length s) in
    let split : remaining_slice p ≡ decimal (length s) ++ 58 ∷ (s ++ rest) =
      e ∙ append_assoc (decimal (length s)) (58 ∷ s) rest in
    let first : remaining_slice p ≡ c ∷ (cs ++ 58 ∷ (s ++ rest)) =
      split ∙ ap (λ l. l ++ 58 ∷ (s ++ rest)) f in
    parse_value_text insert fuel p (cs ++ 58 ∷ (s ++ rest)) c d first
    ∙ parse_string_lem s p rest total fits h.1 split
        (omega (arith, length-append (decimal (length s)) (58 ∷ s)))

module _ (insert : Text → Value → Fields → Fields) (ordered : IsOrdered insert) where
  mutual
    unfolding wire IsCanonical string_key

    value-wire :
        (v : Value) (fuel : ℕ) (p : BencodeParser) (rest : Bytes) (total : ℕ)
        → IsCanonical v
        → length p.input < 2 ^ 64
        → 2 * length (wire v) ≤ fuel
        → remaining_slice p ≡ wire v ++ rest
        → total ≡ p.index + length (wire v)
        → parse_value insert fuel p ≡ ok (v, at p total)
    value-wire null fuel p rest total h fits enough e t = absurd h
    value-wire (bool b) fuel p rest total h fits enough e t = absurd h
    value-wire v zero p rest total h fits enough e t = absurd (omega (arith, length-wire v h))
    value-wire (number n) (suc fuel) p rest total h fits enough e t =
        let split : remaining_slice p ≡ 105 ∷ (number_text n ++ 101 ∷ rest) =
          e ∙ ap (λ l. 105 ∷ l) (append_assoc (number_text n) (101 ∷ []) rest) in
        parse_value_integer insert fuel p (number_text n ++ 101 ∷ rest) split
        ∙ parse_integer_lem n p rest total h split
            (omega (arith, length-append (number_text n) (101 ∷ [])))
    value-wire (string s) (suc fuel) p rest total h fits enough e t =
        parse_string_at insert s (suc fuel) p rest total (omega arith) h fits e t
    value-wire (array items) (suc fuel) p rest total h fits enough e t =
        let split : remaining_slice p ≡ 108 ∷ (wire_items items ++ 101 ∷ rest) =
          e ∙ ap (λ l. 108 ∷ l) (append_assoc (wire_items items) (101 ∷ []) rest) in
        let behind =
          remaining_slice-advance_by 1 p (108 ∷ []) (wire_items items ++ 101 ∷ rest) split refl in
        let size = length-append (wire_items items) (101 ∷ []) in
        parse_value_list insert fuel p (wire_items items ++ 101 ∷ rest) split
        ∙ rw
            (items-wire items fuel (advance_by 1 p) rest total h fits (omega arith) behind
              (omega arith))
            refl
    value-wire (object fields) (suc fuel) p rest total h fits enough e t =
        let split : remaining_slice p ≡ 100 ∷ (wire_fields fields ++ 101 ∷ rest) =
          e ∙ ap (λ l. 100 ∷ l) (append_assoc (wire_fields fields) (101 ∷ []) rest) in
        let behind =
          remaining_slice-advance_by 1 p (100 ∷ []) (wire_fields fields ++ 101 ∷ rest) split refl in
        let size = length-append (wire_fields fields) (101 ∷ []) in
        parse_value_dictionary insert fuel p (wire_fields fields ++ 101 ∷ rest) split
        ∙ rw
            (
              fields-wire fields end fuel (advance_by 1 p) rest total h fits (omega arith) behind
                  (omega arith),
              append_fields_end fields,
            )
            refl

    items-wire :
        (items : Items) (fuel : ℕ) (p : BencodeParser) (rest : Bytes) (total : ℕ)
        → AreCanonical items
        → length p.input < 2 ^ 64
        → 2 * length (wire_items items) < fuel
        → remaining_slice p ≡ wire_items items ++ 101 ∷ rest
        → total ≡ p.index + length (wire_items items) + 1
        → parse_items insert fuel p ≡ ok (items, at p total)
    items-wire items zero p rest total h fits enough e t = absurd (omega arith)
    items-wire nil (suc fuel) p rest total h fits enough e t =
        let there : p.index + 1 ≡ total = omega arith in
        parse_items_end insert fuel p rest e ∙ ap (λ i. ok (nil, at p i)) there
    items-wire (cons v items) (suc fuel) p rest total h fits enough e t =
        let (c, cs, f, other) = wire-cons v h.0 in
        let split : remaining_slice p ≡ wire v ++ (wire_items items ++ 101 ∷ rest) =
          e ∙ append_assoc (wire v) (wire_items items) (101 ∷ rest) in
        let first : remaining_slice p ≡ c ∷ (cs ++ (wire_items items ++ 101 ∷ rest)) =
          split ∙ ap (λ l. l ++ (wire_items items ++ 101 ∷ rest)) f in
        let middle = p.index + length (wire v) in
        let behind =
          remaining_slice-at p middle (wire v) (wire_items items ++ 101 ∷ rest) split refl in
        let size = length-append (wire v) (wire_items items) in
        let some_byte = length-wire v h.0 in
        parse_items_more insert fuel p (cs ++ (wire_items items ++ 101 ∷ rest)) c other first
        ∙ rw
            (
              value-wire v fuel p (wire_items items ++ 101 ∷ rest) middle h.0 fits (omega arith)
                  split refl,
              items-wire items fuel (at p middle) rest total h.1 fits (omega arith) behind
                  (omega arith),
            )
            refl

    fields-wire :
        (fields before : Fields) (fuel : ℕ) (p : BencodeParser) (rest : Bytes) (total : ℕ)
        → AreAscending fields before
        → length p.input < 2 ^ 64
        → 2 * length (wire_fields fields) < fuel
        → remaining_slice p ≡ wire_fields fields ++ 101 ∷ rest
        → total ≡ p.index + length (wire_fields fields) + 1
        → parse_fields insert fuel before p ≡ ok (append_fields before fields, at p total)
    fields-wire fields before zero p rest total h fits enough e t = absurd (omega arith)
    fields-wire end before (suc fuel) p rest total h fits enough e t =
        let there : p.index + 1 ≡ total = omega arith in
        parse_fields_end insert fuel p rest before e ∙ ap (λ i. ok (before, at p i)) there
    fields-wire (field key v fields) before (suc fuel) p rest total h fits enough e t =
        let key_wire = wire_string key in
        let more = wire v ++ (wire_fields fields ++ 101 ∷ rest) in
        let (c, cs, f, d) = decimal-cons (length key) in
        let split : remaining_slice p ≡ key_wire ++ more =
          e
          ∙ append_assoc key_wire (wire v ++ wire_fields fields) (101 ∷ rest)
          ∙ ap (λ l. key_wire ++ l) (append_assoc (wire v) (wire_fields fields) (101 ∷ rest)) in
        let first : remaining_slice p ≡ c ∷ ((cs ++ 58 ∷ key) ++ more) =
          split ∙ ap (λ l. (l ++ 58 ∷ key) ++ more) f in
        let i = p.index + length key_wire in
        let j = i + length (wire v) in
        let behind_key = remaining_slice-at p i key_wire more split refl in
        let behind_value =
          remaining_slice-at (at p i) j (wire v) (wire_fields fields ++ 101 ∷ rest) behind_key
            refl in
        let sizes = length-append key_wire (wire v ++ wire_fields fields) in
        let sizes' = length-append (wire v) (wire_fields fields) in
        let some_byte = length-wire v h.1 in
        parse_fields_more insert fuel p ((cs ++ 58 ∷ key) ++ more) before c (λ x. omega arith) first
        ∙ rw
            (
              parse_string_at insert key fuel p more i (omega arith) h.0 fits split refl,
              value-wire v fuel (at p i) (wire_fields fields ++ 101 ∷ rest) j h.1 fits (omega arith)
                  behind_key refl,
              ordered key v before h.2,
              fields-wire fields (snoc before key v) fuel (at p j) rest total h.3 fits (omega arith)
                  behind_value (omega arith),
            )
            refl

  -- For a map whose `insert` appends a key above all others: what `encode` writes for a canonical
  -- value (integers of 64 bits, byte strings, lists, and dictionaries with ascending keys) is read
  -- back as that value, if it is fewer than 2^64 bytes.
  pub parse_bytes-encode :
      (v : Value) (bytes : Bytes)
      → IsCanonical v
      → encode v ≡ some bytes
      → length bytes < 2 ^ 64
      → parse_bytes insert bytes ≡ ok v
  unfolding parse_bytes new ensure_consumed
  parse_bytes-encode v bytes h e fits =
      let same : bytes ≡ wire v = cc (e, encode-wire v h) in
      let size : length bytes ≡ length (wire v) = ap length same in
      let parsed =
        value-wire v (2 * length bytes + 1) (new bytes) [] (length bytes) h fits (omega arith)
          (same ∙ sym (append-nil (wire v))) (omega arith) in
      rw (parsed, ==_refl (length bytes)) refl
