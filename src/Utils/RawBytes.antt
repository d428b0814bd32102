-- ===== src/Utils/RawBytes.antt =====
-- src/utils/bytes.rs: bytes as a text of one character each, and back. A text is the list of its
-- code points.
use codecrafters_bittorrent.Prelude.{
  ℕ, ◌%◌, ◌≡◌, refl, ap, List, [], ◌∷◌, map, arith, Bytes, All, IsByte, length,
}

abbrev pub Text : Type 0
Text = List ℕ

-- `b as char` is the code point of the same number.
unfoldable pub to_raw_string : Bytes → Text
to_raw_string = map (λ b. b)

-- `ch as u8` keeps the low eight bits.
unfoldable pub to_raw_bytes : Text → Bytes
to_raw_bytes = map (λ ch. ch % 256)

-- Every string of numbers below 256 is read back from its text.
pub to_raw_bytes-to_raw_string : (bs : Bytes) → All IsByte bs → to_raw_bytes (to_raw_string bs) ≡ bs
unfolding to_raw_bytes to_raw_string
to_raw_bytes-to_raw_string [] h = refl
to_raw_bytes-to_raw_string (b ∷ bs) h = let rest = to_raw_bytes-to_raw_string bs h.1 in ground arith

pub to_raw_string_lem : (bs : Bytes) → to_raw_string bs ≡ bs
unfolding to_raw_string
to_raw_string_lem [] = refl
to_raw_string_lem (b ∷ bs) = ap (λ l. b ∷ l) (to_raw_string_lem bs)

pub to_raw_bytes-eq : (s : Text) → All IsByte s → to_raw_bytes s ≡ s
unfolding to_raw_bytes
to_raw_bytes-eq [] h = refl
to_raw_bytes-eq (c ∷ s) h = let rest = to_raw_bytes-eq s h.1 in ground arith

pub to_raw_bytes-IsByte : (s : Text) → All IsByte (to_raw_bytes s)
unfolding to_raw_bytes
to_raw_bytes-IsByte [] = tt
to_raw_bytes-IsByte (c ∷ s) = (omega arith, to_raw_bytes-IsByte s)

pub length-to_raw_bytes : (s : Text) → length (to_raw_bytes s) ≡ length s
unfolding to_raw_bytes
length-to_raw_bytes [] = refl
length-to_raw_bytes (c ∷ s) = omega (arith, length-to_raw_bytes s)
