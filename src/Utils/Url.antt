-- ===== src/Utils/Url.antt =====
-- src/utils/url.rs: percent-encoding of bytes.
pub mod Decode
use codecrafters_bittorrent.Prelude.{
  ℕ, ◌/◌, ◌%◌, Bool, true, false, ◌||◌, ◌&&◌, List, [], ◌∷◌, Bytes, Option, none, some, get_elem?,
  leb, ◌==◌, if◌then◌else◌,
}
use codecrafters_bittorrent.Utils.RawBytes.{Text}

-- `0123456789ABCDEF`.
abbrev pub hex : Text
hex = 48 ∷ 49 ∷ 50 ∷ 51 ∷ 52 ∷ 53 ∷ 54 ∷ 55 ∷ 56 ∷ 57 ∷ 65 ∷ 66 ∷ 67 ∷ 68 ∷ 69 ∷ 70 ∷ []

-- An index of four bits is never out of range.
abbrev pub hex_digit : ℕ → ℕ
hex_digit n = elim (get_elem? hex n) [ some d ↦ d | none ↦ 0 ]

-- The letters, the digits, `-`, `_`, `.` and `~`.
abbrev pub is_unreserved : ℕ → Bool
is_unreserved b =
    (leb 65 b && leb b 90)
    || (leb 97 b && leb b 122)
    || (leb 48 b && leb b 57)
    || (b == 45)
    || (b == 95)
    || (b == 46)
    || (b == 126)

unfoldable pub url_encode : Bytes → Text
url_encode [] = []
url_encode (b ∷ bytes) =
    let rest = url_encode bytes in
    if is_unreserved b then b ∷ rest else 37 ∷ hex_digit (b / 16) ∷ hex_digit (b % 16) ∷ rest
