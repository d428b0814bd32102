-- ===== src/Bencode/Decimal.antt =====
-- Decimal numbers: `format!` and `str::parse` of the standard library, which src/bencode.rs uses.
use codecrafters_bittorrent.Prelude.{
  ℕ, zero, suc, ◌+◌, ◌-◌, ◌*◌, ◌/◌, ◌%◌, ◌^◌, ◌<◌, ◌≤◌, ◌≡◌, refl, sym, subst, ap, ◌∙◌, ◌&&◌, Bool,
  true, false, [], ◌∷◌, Bytes, All, Option, none, some, leb, ◌==◌, if◌then◌else◌, Bool-cases, inl,
  inr, arith,
}
use native.Mathlib.Nat.{pow-suc}
use codecrafters_bittorrent.Utils.RawBytes.{Text}

abbrev pub u64_max : ℕ
u64_max = 2 ^ 64 - 1

abbrev pub i64_max : ℕ
i64_max = 2 ^ 63 - 1

-- The digits of a number before what follows, at most `fuel` of them.
unfoldable pub digits_of : ℕ → ℕ → Text → Text
digits_of zero n after = after
digits_of (suc fuel) n after = elim (n / 10 == 0) [
  | true ↦ (48 + n % 10) ∷ after
  | false ↦ digits_of fuel (n / 10) ((48 + n % 10) ∷ after)
]

-- A 64-bit number has at most 20 digits.
unfoldable pub decimal : ℕ → Text
decimal n = digits_of 20 n []

abbrev pub is_ascii_digit : ℕ → Bool
is_ascii_digit c = leb 48 c && leb c 57

-- Digits behind the value `so_far`; `none` where one is no digit, or the value passes `max`.
unfoldable pub digits_value : ℕ → ℕ → Bytes → Option ℕ
digits_value max so_far [] = some so_far
digits_value max so_far (c ∷ cs) = elim (is_ascii_digit c && leb (so_far * 10 + (c - 48)) max) [
  | true ↦ digits_value max (so_far * 10 + (c - 48)) cs
  | false ↦ none
]

unfoldable pub parse_digits : ℕ → Bytes → Option ℕ
unfolding digits_value
parse_digits max [] = none
parse_digits max (c ∷ cs) = digits_value max 0 (c ∷ cs)

-- `parse` of an unsigned type with the largest value `max`: a plus sign is allowed.
unfoldable pub parse_unsigned : ℕ → Bytes → Option ℕ
unfolding parse_digits
parse_unsigned max [] = none
parse_unsigned max (c ∷ cs) = if c == 43 then parse_digits max cs else parse_digits max (c ∷ cs)

abbrev pub parse_usize : Bytes → Option ℕ
parse_usize = parse_unsigned u64_max

abbrev pub IsDigit : ℕ → Type 0
IsDigit c = (48 ≤ c) × (c ≤ 57)

digits_of_last :
    (fuel n : ℕ) (after : Text) → n < 10 → digits_of (suc fuel) n after ≡ (48 + n % 10) ∷ after
unfolding digits_of
digits_of_last fuel n after h =
    let b : (n / 10 == 0) ≡ true = ground arith in rw (b, digits_of) refl

digits_of_more :
    (fuel n : ℕ) (after : Text)
    → 10 ≤ n
    → digits_of (suc fuel) n after ≡ digits_of fuel (n / 10) ((48 + n % 10) ∷ after)
unfolding digits_of
digits_of_more fuel n after h =
    let b : (n / 10 == 0) ≡ false = ground arith in rw (b, digits_of) refl

pub digits_of-IsDigit :
    (fuel n : ℕ) (after : Text) → All IsDigit after → All IsDigit (digits_of fuel n after)
unfolding digits_of
digits_of-IsDigit zero n after h = h
digits_of-IsDigit (suc fuel) n after h = elim (Bool-cases (leb 10 n)) [
  | inl b ↦
      subst (All IsDigit) (sym (digits_of_more fuel n after (ground arith)))
        (digits_of-IsDigit fuel (n / 10) _ ((omega arith, omega arith), h))
  | inr b ↦
      subst (All IsDigit) (sym (digits_of_last fuel n after (ground arith)))
        ((omega arith, omega arith), h)
]

digits_value_step :
    (max so_far d : ℕ) (cs : Bytes)
    → d < 10
    → so_far * 10 + d ≤ max
    → digits_value max so_far ((48 + d) ∷ cs) ≡ digits_value max (so_far * 10 + d) cs
unfolding digits_value
digits_value_step max so_far d cs h fits =
    let value : 48 + d - 48 ≡ d = omega arith in
    let b : (is_ascii_digit (48 + d) && leb (so_far * 10 + (48 + d - 48)) max) ≡ true =
      ground arith in
    rw (b, digits_value) (ap (λ v. digits_value max (so_far * 10 + v) cs) value)

pub digits_value-digits_of :
    (fuel max n : ℕ) (after : Text)
    → n < 10 ^ fuel
    → n ≤ max
    → digits_value max 0 (digits_of fuel n after) ≡ digits_value max n after
unfolding digits_of
digits_value-digits_of zero max n after h fits = let same : n ≡ 0 = omega arith in rw same refl
digits_value-digits_of (suc fuel) max n after h fits =
    let pow : 10 ^ suc fuel ≡ 10 ^ fuel * 10 = pow-suc 10 fuel in
    elim (Bool-cases (leb 10 n)) [
      | inl b ↦
          let all : n / 10 * 10 + n % 10 ≡ n = omega arith in
          ap (digits_value max 0) (digits_of_more fuel n after (ground arith))
          ∙ digits_value-digits_of fuel max (n / 10) ((48 + n % 10) ∷ after) (omega arith)
              (omega arith)
          ∙ digits_value_step max (n / 10) (n % 10) after (omega arith) (omega arith)
          ∙ ap (λ v. digits_value max v after) all
      | inr b ↦
          let small : n < 10 = ground arith in
          let all : 0 * 10 + n % 10 ≡ n = omega arith in
          ap (digits_value max 0) (digits_of_last fuel n after small)
          ∙ digits_value_step max 0 (n % 10) after (omega arith) (omega arith)
          ∙ ap (λ v. digits_value max v after) all
    ]

-- At least one digit is written.
digits_of-cons :
    (fuel n : ℕ) (after : Text) → (c : ℕ) × (cs : Text) × (digits_of (suc fuel) n after ≡ c ∷ cs)
unfolding digits_of
digits_of-cons zero n after = elim (Bool-cases (leb 10 n)) [
  | inl b ↦ ((48 + n % 10), after, digits_of_more 0 n after (ground arith))
  | inr b ↦ ((48 + n % 10), after, digits_of_last 0 n after (ground arith))
]
digits_of-cons (suc fuel) n after = elim (Bool-cases (leb 10 n)) [
  | inl b ↦
      let (c, cs, e) = digits_of-cons fuel (n / 10) ((48 + n % 10) ∷ after) in
      (c, cs, digits_of_more (suc fuel) n after (ground arith) ∙ e)
  | inr b ↦ ((48 + n % 10), after, digits_of_last (suc fuel) n after (ground arith))
]

pub decimal-IsDigit : (n : ℕ) → All IsDigit (decimal n)
unfolding decimal
decimal-IsDigit n = digits_of-IsDigit 20 n [] tt

pub decimal-cons : (n : ℕ) → (c : ℕ) × (cs : Text) × (decimal n ≡ c ∷ cs) × IsDigit c
unfolding decimal
decimal-cons n =
    let (c, cs, e) = digits_of-cons 19 n [] in
    (c, cs, e, (subst (All IsDigit) e (decimal-IsDigit n)).0)

parse_digits-cons :
    (max c : ℕ) (cs : Text) → parse_digits max (c ∷ cs) ≡ digits_value max 0 (c ∷ cs)
unfolding parse_digits
parse_digits-cons max c cs = refl

-- The digits of a 64-bit number are read as that number, if it is in range.
pub parse_digits-decimal :
    (max n : ℕ) → n < 2 ^ 64 → n ≤ max → parse_digits max (decimal n) ≡ some n
parse_digits-decimal max n small fits =
    let (c, cs, e, h) = decimal-cons n in
    ap (parse_digits max) e ∙ parse_digits-cons max c cs ∙ ap (digits_value max 0) (sym e) ∙ whole
  where
    whole : digits_value max 0 (decimal n) ≡ some n
    whole =
        unfold decimal in
        unfold digits_value in digits_value-digits_of 20 max n [] (omega arith) fits

pub parse_unsigned-decimal :
    (max n : ℕ) → n < 2 ^ 64 → n ≤ max → parse_unsigned max (decimal n) ≡ some n
unfolding parse_unsigned
parse_unsigned-decimal max n small fits =
    let (c, cs, e, h) = decimal-cons n in
    let no_sign : (c == 43) ≡ false = ground arith in
    ap (parse_unsigned max) e
    ∙ rw (no_sign, parse_unsigned)
        (ap (parse_digits max) (sym e) ∙ parse_digits-decimal max n small fits)
