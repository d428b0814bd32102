-- ===== src/Bencode/Steps.antt =====
-- One call of the parser of src/bencode.rs, by the byte that it stands at.
use codecrafters_bittorrent.Prelude.{
  ℕ, suc, ◌≡◌, ◌≢◌, refl, false, ◌∷◌, Bytes, ok, ◌>>=◌, ◌==◌, arith,
}
use codecrafters_bittorrent.Utils.RawBytes.{Text}
use codecrafters_bittorrent.Bencode.Decimal.{IsDigit}
use codecrafters_bittorrent.Bencode.Value.{Value, array, object, nil, cons, Fields, end}
use codecrafters_bittorrent.Bencode.Parser.{
  BencodeParser, advance_by, remaining_slice, parse_integer, parse_string, prefix_of, text,
  string_key, parse_value, parse_items, parse_fields,
}
use codecrafters_bittorrent.Bencode.Scan.{get_elem?-drop, expect_byte_lem}

module _ (insert : Text → Value → Fields → Fields) (fuel : ℕ) (p : BencodeParser)
    (rest : Bytes) where
  pub parse_value_integer :
      remaining_slice p ≡ 105 ∷ rest → parse_value insert (suc fuel) p ≡ parse_integer p
  unfolding parse_value prefix_of
  parse_value_integer e = rw (get_elem?-drop p.index p.input 105 rest e, parse_value) refl

  pub parse_value_text :
      (c : ℕ)
      → IsDigit c
      → remaining_slice p ≡ c ∷ rest
      → parse_value insert (suc fuel) p ≡ parse_string p
  unfolding parse_value
  parse_value_text c d e =
      let announced : prefix_of c ≡ text = unfold prefix_of in ground arith in
      rw (get_elem?-drop p.index p.input c rest e, announced, parse_value) refl

  pub parse_value_list :
      remaining_slice p ≡ 108 ∷ rest
      → parse_value insert (suc fuel) p
        ≡ (parse_items insert fuel (advance_by 1 p) >>= λ (items, p₂). ok (array items, p₂))
  unfolding parse_value prefix_of
  parse_value_list e =
      rw (get_elem?-drop p.index p.input 108 rest e, expect_byte_lem 108 p rest e, parse_value) refl

  pub parse_value_dictionary :
      remaining_slice p ≡ 100 ∷ rest
      → parse_value insert (suc fuel) p
        ≡ (parse_fields insert fuel end (advance_by 1 p) >>= λ (fields, p₂). ok (object fields, p₂))
  unfolding parse_value prefix_of
  parse_value_dictionary e =
      rw (get_elem?-drop p.index p.input 100 rest e, expect_byte_lem 100 p rest e, parse_value) refl

  pub parse_items_end :
      remaining_slice p ≡ 101 ∷ rest → parse_items insert (suc fuel) p ≡ ok (nil, advance_by 1 p)
  unfolding parse_value
  parse_items_end e = rw (get_elem?-drop p.index p.input 101 rest e, parse_items) refl

  pub parse_items_more :
      (c : ℕ)
      → c ≢ 101
      → remaining_slice p ≡ c ∷ rest
      → parse_items insert (suc fuel) p ≡ (
          parse_value insert fuel p >>= λ (value, p₁).
          parse_items insert fuel p₁ >>= λ (items, p₂). ok (cons value items, p₂))
  unfolding parse_value
  parse_items_more c other e =
      let b : (c == 101) ≡ false = ground arith in
      rw (get_elem?-drop p.index p.input c rest e, b, parse_items) refl

  pub parse_fields_end :
      (fields : Fields)
      → remaining_slice p ≡ 101 ∷ rest
      → parse_fields insert (suc fuel) fields p ≡ ok (fields, advance_by 1 p)
  unfolding parse_value
  parse_fields_end fields e = rw (get_elem?-drop p.index p.input 101 rest e, parse_fields) refl

  pub parse_fields_more :
      (fields : Fields) (c : ℕ)
      → c ≢ 101
      → remaining_slice p ≡ c ∷ rest
      → parse_fields insert (suc fuel) fields p ≡ (
          parse_value insert fuel p >>= λ (key_value, p₁). string_key key_value >>= λ key.
          parse_value insert fuel p₁ >>= λ (value, p₂).
          parse_fields insert fuel (insert key value fields) p₂)
  unfolding parse_value
  parse_fields_more fields c other e =
      let b : (c == 101) ≡ false = ground arith in
      rw (get_elem?-drop p.index p.input c rest e, b, parse_fields) refl
