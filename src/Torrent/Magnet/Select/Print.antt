-- ===== src/Torrent/Magnet/Select/Print.antt =====
-- What src/torrent/magnet.rs reads from a `so` value that lists indices and ranges.
use codecrafters_bittorrent.Prelude.{
  ℕ, ◌+◌, ◌-◌, ◌^◌, ◌≤◌, ◌<◌, ◌≡◌, refl, sym, ap, ◌∙◌, false, List, [], ◌∷◌, ◌++◌, append_assoc,
  append-nil, map, ok, All, All-append, arith, ltb, le→ltb,
}
use codecrafters_bittorrent.Utils.RawBytes.{Text}
use codecrafters_bittorrent.Utils.Ranges.{range_from}
use codecrafters_bittorrent.Utils.Strings.{trim, split}
use codecrafters_bittorrent.Utils.Strings.Clean.{
  Lacks, split-Lacks, split-append, split_once-Lacks, split_once-append, IsSolid, trim-IsSolid,
}
use codecrafters_bittorrent.Utils.Strings.Digits.{
  decimal-Lacks, decimal-IsSolid, is_whitespace_ascii,
}
use codecrafters_bittorrent.Bencode.Decimal.{decimal, decimal-cons, parse_unsigned-decimal}
use codecrafters_bittorrent.Torrent.Magnet.Select.{
  non_empty, parse_range, parse_part, select_loop, parse_select_only,
}

pub data Selection : Type 0 where
  index : ℕ → Selection
  range : ℕ → ℕ → Selection

-- Numbers of 32 bits, in order.
abbrev pub InRange : Selection → Type 0
InRange (index n) = n < 2 ^ 32
InRange (range first last) = (first ≤ last) × (last < 2 ^ 32)

abbrev pub item : Selection → Text
item (index n) = decimal n
item (range first last) = decimal first ++ 45 ∷ decimal last

-- The items with commas between them, as BEP 53 has it.
pub print : List Selection → Text
print [] = []
print (x ∷ []) = item x
print (x ∷ y ∷ xs) = item x ++ 44 ∷ print (y ∷ xs)

abbrev pub expand : Selection → List ℕ
expand (index n) = n ∷ []
expand (range first last) = range_from first (last + 1 - first)

abbrev pub expand_all : List Selection → List ℕ
expand_all [] = []
expand_all (x ∷ xs) = expand x ++ expand_all xs

item-cons : (x : Selection) → (c : ℕ) × (cs : Text) × (item x ≡ c ∷ cs)
item-cons (index n) = let (c, cs, e, _) = decimal-cons n in (c, cs, e)
item-cons (range first last) =
    let (c, cs, e, _) = decimal-cons first in
    (c, cs ++ 45 ∷ decimal last, ap (λ s. s ++ 45 ∷ decimal last) e)

item-Lacks : (x : Selection) → Lacks 44 (item x)
item-Lacks (index n) = decimal-Lacks 44 n (omega arith)
item-Lacks (range first last) =
    All-append _ (decimal first) (45 ∷ decimal last) (decimal-Lacks 44 first (omega arith))
      (refl, decimal-Lacks 44 last (omega arith))

item-IsSolid : (x : Selection) → IsSolid (item x)
item-IsSolid (index n) = decimal-IsSolid n
item-IsSolid (range first last) =
    All-append _ (decimal first) (45 ∷ decimal last) (decimal-IsSolid first)
      (is_whitespace_ascii 45 (omega arith) (omega arith), decimal-IsSolid last)

split-print : (x : Selection) (xs : List Selection) → split 44 (print (x ∷ xs)) ≡ map item (x ∷ xs)
unfolding print
split-print x [] = split-Lacks 44 (item x) (item-Lacks x)
split-print x (y ∷ xs) =
    split-append 44 (item x) (print (y ∷ xs)) (item-Lacks x)
    ∙ ap (λ parts. item x ∷ parts) (split-print y xs)

-- Neither trimming nor the filter changes an item.
items_kept : (xs : List Selection) → non_empty (map trim (map item xs)) ≡ map item xs
unfolding non_empty
items_kept [] = refl
items_kept (x ∷ xs) =
    let (c, cs, e) = item-cons x in
    ap (λ s. non_empty (s ∷ map trim (map item xs))) (trim-IsSolid (item x) (item-IsSolid x) ∙ e)
    ∙ ap (λ parts. (c ∷ cs) ∷ parts) (items_kept xs)
    ∙ ap (λ s. s ∷ map item xs) (sym e)

parse_range-decimal :
    (first last : ℕ)
    → first ≤ last
    → last < 2 ^ 32
    → parse_range (decimal first) (decimal last) ≡ ok (range_from first (last + 1 - first))
unfolding parse_range
parse_range-decimal first last order fits =
    let a = parse_unsigned-decimal (2 ^ 32 - 1) first (omega arith) (omega arith) in
    let b = parse_unsigned-decimal (2 ^ 32 - 1) last (omega arith) (omega arith) in
    let t : ltb last first ≡ false = le→ltb _ _ order in rw (a, parse_range, b, t) refl

parse_part-item : (x : Selection) → InRange x → parse_part (item x) ≡ ok (expand x)
unfolding parse_part
parse_part-item (index n) fits =
    let a = split_once-Lacks 45 (decimal n) (decimal-Lacks 45 n (omega arith)) in
    let b = parse_unsigned-decimal (2 ^ 32 - 1) n (omega arith) (omega arith) in
    rw (a, parse_part, b) refl
parse_part-item (range first last) (order, fits) =
    let a =
      split_once-append 45 (decimal first) (decimal last) (decimal-Lacks 45 first (omega arith)) in
    rw (a, parse_part) (parse_range-decimal first last order fits)

select_loop-items :
    (xs : List Selection) (result : List ℕ)
    → All InRange xs
    → select_loop result (map item xs) ≡ ok (result ++ expand_all xs)
unfolding select_loop
select_loop-items [] result h = ap ok (sym (append-nil result))
select_loop-items (x ∷ xs) result h =
    let part = parse_part-item x h.0 in
    rw part (
      select_loop-items xs (result ++ expand x) h.1
      ∙ ap ok (append_assoc result (expand x) (expand_all xs)))

-- A `so` value that lists indices of 32 bits and ranges of them, each with its first index no greater
-- than its last, is read as all these indices in order, with the ranges written out.
pub parse_select_only-print :
    (xs : List Selection) → All InRange xs → parse_select_only (print xs) ≡ ok (expand_all xs)
unfolding parse_select_only
parse_select_only-print [] h = unfold print in refl
parse_select_only-print (x ∷ xs) h =
    ap (λ parts. select_loop [] (non_empty (map trim parts))) (split-print x xs)
    ∙ ap (select_loop []) (items_kept (x ∷ xs))
    ∙ select_loop-items (x ∷ xs) [] h
