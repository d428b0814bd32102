-- ===== src/Utils/Url/Decode.antt =====
-- The decoding of RFC 3986, against src/utils/url.rs.
use codecrafters_bittorrent.Prelude.{
  ℕ, zero, suc, ◌+◌, ◌-◌, ◌*◌, ◌/◌, ◌%◌, ◌<◌, ◌≡◌, refl, ap, ◌∙◌, inl, inr, true, false, ◌&&◌, [],
  ◌∷◌, Bytes, All, IsByte, Option, none, some, Bool-cases, leb, ◌==◌, if◌then◌else◌, arith,
}
use codecrafters_bittorrent.Utils.RawBytes.{Text}
use codecrafters_bittorrent.Utils.Url.{hex_digit, is_unreserved, url_encode}

abbrev pub hex_value : ℕ → Option ℕ
hex_value c =
    if leb 48 c && leb c 57
    then some (c - 48)
    else if leb 65 c && leb c 70
    then some (c - 55)
    else none

-- What of an escape was read.
pub data Escape : Type 0 where
  plain percent : Escape
  digit : ℕ → Escape

abbrev pub push : ℕ → Option Bytes → Option Bytes
push b none = none
push b (some bs) = some (b ∷ bs)

abbrev pub percent_decode : Escape → Text → Option Bytes
percent_decode plain [] = some []
percent_decode (digit h) [] = none
percent_decode percent [] = none
percent_decode plain (c ∷ cs) = elim (c == 37) [
  | true ↦ percent_decode percent cs
  | false ↦ push c (percent_decode plain cs)
]
percent_decode percent (c ∷ cs) = elim (hex_value c) [
  | none ↦ none
  | some h ↦ percent_decode (digit h) cs
]
percent_decode (digit h) (c ∷ cs) = elim (hex_value c) [
  | none ↦ none
  | some l ↦ push (h * 16 + l) (percent_decode plain cs)
]

hex_value-hex_digit : (n : ℕ) → n < 16 → hex_value (hex_digit n) ≡ some n
hex_value-hex_digit zero h = refl
hex_value-hex_digit (suc zero) h = refl
hex_value-hex_digit (suc (suc zero)) h = refl
hex_value-hex_digit (suc (suc (suc zero))) h = refl
hex_value-hex_digit (suc (suc (suc (suc zero)))) h = refl
hex_value-hex_digit (suc (suc (suc (suc (suc zero))))) h = refl
hex_value-hex_digit (suc (suc (suc (suc (suc (suc zero)))))) h = refl
hex_value-hex_digit (suc (suc (suc (suc (suc (suc (suc zero))))))) h = refl
hex_value-hex_digit (suc (suc (suc (suc (suc (suc (suc (suc zero)))))))) h = refl
hex_value-hex_digit (suc (suc (suc (suc (suc (suc (suc (suc (suc zero))))))))) h = refl
hex_value-hex_digit (suc (suc (suc (suc (suc (suc (suc (suc (suc (suc zero)))))))))) h = refl
hex_value-hex_digit (suc (suc (suc (suc (suc (suc (suc (suc (suc (suc (suc zero))))))))))) h = refl
hex_value-hex_digit (suc (suc (suc (suc (suc (suc (suc (suc (suc (suc (suc (suc zero)))))))))))) h =
    refl
hex_value-hex_digit
      (suc (suc (suc (suc (suc (suc (suc (suc (suc (suc (suc (suc (suc zero))))))))))))) h =
    refl
hex_value-hex_digit
      (suc (suc (suc (suc (suc (suc (suc (suc (suc (suc (suc (suc (suc (suc zero)))))))))))))) h =
    refl
hex_value-hex_digit
      (suc (suc (suc (suc (suc (suc (suc (suc (suc (suc (suc (suc (suc (suc (suc zero)))))))))))))))
      h =
    refl
hex_value-hex_digit
      (suc
        (suc (suc (suc (suc (suc (suc (suc (suc (suc (suc (suc (suc (suc (suc (suc n))))))))))))))))
      h =
    absurd (omega arith)

percent_lem :
    (c h : ℕ) (cs : Text)
    → hex_value c ≡ some h
    → percent_decode percent (c ∷ cs) ≡ percent_decode (digit h) cs
percent_lem c h cs e = rw (e, percent_decode) refl

digit_lem :
    (h c l : ℕ) (cs : Text) (bytes : Bytes)
    → hex_value c ≡ some l
    → percent_decode plain cs ≡ some bytes
    → percent_decode (digit h) (c ∷ cs) ≡ some ((h * 16 + l) ∷ bytes)
digit_lem h c l cs bytes e f = rw (e, f, percent_decode) refl

-- Decoding, as RFC 3986 has it, what `url_encode` made of numbers below 256 gives these numbers.
pub percent_decode-url_encode :
    (bytes : Bytes) → All IsByte bytes → percent_decode plain (url_encode bytes) ≡ some bytes
unfolding url_encode
percent_decode-url_encode [] h = refl
percent_decode-url_encode (b ∷ bytes) h =
    let rest = percent_decode-url_encode bytes h.1 in
    let high = hex_value-hex_digit (b / 16) (omega arith) in
    let low = hex_value-hex_digit (b % 16) (omega arith) in
    elim (Bool-cases (is_unreserved b)) [
      | inl raw ↦
          let other : (b == 37) ≡ false = ground arith in rw (raw, other, rest, percent_decode) refl
      | inr escaped ↦
          let whole : b / 16 * 16 + b % 16 ≡ b = omega arith in
          let shape : url_encode (b ∷ bytes)
              ≡ 37 ∷ hex_digit (b / 16) ∷ hex_digit (b % 16) ∷ url_encode bytes =
            rw escaped refl in
          ap (percent_decode plain) shape
          ∙ percent_lem (hex_digit (b / 16)) (b / 16) (hex_digit (b % 16) ∷ url_encode bytes) high
          ∙ digit_lem (b / 16) (hex_digit (b % 16)) (b % 16) (url_encode bytes) bytes low rest
          ∙ ap (λ x. some (x ∷ bytes)) whole
    ]
