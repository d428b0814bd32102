-- ===== src/Torrent/Magnet/Select.antt =====
-- `parse_select_only` of src/torrent/magnet.rs.
pub mod Print
use codecrafters_bittorrent.Prelude.{
  ℕ, zero, suc, ◌+◌, ◌-◌, ◌^◌, Bool, true, false, ◌&&◌, ◌||◌, List, [], ◌∷◌, ◌++◌, map, Option,
  none, some, Result, ok, err, leb, ltb, ◌==◌, if◌then◌else◌,
}
use codecrafters_bittorrent.Utils.RawBytes.{Text}
use codecrafters_bittorrent.Utils.Ranges.{range_from}
use codecrafters_bittorrent.Utils.Strings.{trim, split, split_once}
use codecrafters_bittorrent.Bencode.Decimal.{parse_unsigned}

unfoldable pub non_empty : List Text → List Text
non_empty [] = []
non_empty ([] ∷ parts) = non_empty parts
non_empty ((c ∷ s) ∷ parts) = (c ∷ s) ∷ non_empty parts

pub data SelectError : Type 0 where
  invalid_start invalid_end range_reversed invalid_index : SelectError

abbrev pub parse_u32 : Text → Option ℕ
parse_u32 = parse_unsigned (2 ^ 32 - 1)

-- What one part adds to the result.
unfoldable pub parse_range : Text → Text → Result SelectError (List ℕ)
unfolding range_from
parse_range start_str end_str = elim (parse_u32 start_str) [
  | none ↦ err invalid_start
  | some start ↦ elim (parse_u32 end_str) [
    | none ↦ err invalid_end
    | some end ↦
        if ltb end start then err range_reversed else ok (range_from start (end + 1 - start))
  ]
]

unfoldable pub parse_part : Text → Result SelectError (List ℕ)
unfolding parse_range split_once
parse_part part = elim (split_once 45 part) [
  | some ends ↦ parse_range ends.0 ends.1
  | none ↦ elim (parse_u32 part) [ none ↦ err invalid_index | some idx ↦ ok (idx ∷ []) ]
]

abbrev pub extend :
    List ℕ
    → Result SelectError (List ℕ)
    → (List ℕ → Result SelectError (List ℕ))
    → Result SelectError (List ℕ)
extend result (err e) more = err e
extend result (ok indices) more = more (result ++ indices)

-- The loop over the parts, with the result so far.
unfoldable pub select_loop : List ℕ → List Text → Result SelectError (List ℕ)
unfolding parse_part
select_loop result [] = ok result
select_loop result (part ∷ parts) =
    extend result (parse_part part) (λ extended. select_loop extended parts)

unfoldable pub parse_select_only : Text → Result SelectError (List ℕ)
unfolding select_loop trim split non_empty
parse_select_only value = select_loop [] (non_empty (map trim (split 44 value)))
