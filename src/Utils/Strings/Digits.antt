-- ===== src/Utils/Strings/Digits.antt =====
-- Decimal numbers as parts of a text.
use codecrafters_bittorrent.Prelude.{ℕ, ◌<◌, ◌≡◌, false, [], ◌∷◌, All, arith, ◌==◌}
use codecrafters_bittorrent.Utils.RawBytes.{Text}
use codecrafters_bittorrent.Utils.Strings.{is_whitespace}
use codecrafters_bittorrent.Utils.Strings.Clean.{Lacks, IsSolid}
use codecrafters_bittorrent.Bencode.Decimal.{decimal, IsDigit, decimal-IsDigit}

pub All-map : (P Q : ℕ → Type 0) → ((c : ℕ) → P c → Q c) → (s : Text) → All P s → All Q s
All-map P Q f [] h = tt
All-map P Q f (c ∷ s) h = (f c h.0, All-map P Q f s h.1)

-- A separator that is no digit.
pub decimal-Lacks : (separator n : ℕ) → separator < 48 → Lacks separator (decimal n)
decimal-Lacks separator n below =
    All-map IsDigit (λ c. (c == separator) ≡ false) (λ c d. ground arith) (decimal n)
      (decimal-IsDigit n)

pub decimal-Lacks_above : (separator n : ℕ) → 57 < separator → Lacks separator (decimal n)
decimal-Lacks_above separator n above =
    All-map IsDigit (λ c. (c == separator) ≡ false) (λ c d. ground arith) (decimal n)
      (decimal-IsDigit n)

pub is_whitespace_ascii : (c : ℕ) → 32 < c → c < 128 → is_whitespace c ≡ false
unfolding is_whitespace
is_whitespace_ascii c above below = ground arith

pub decimal-IsSolid : (n : ℕ) → IsSolid (decimal n)
decimal-IsSolid n =
    All-map IsDigit (λ c. is_whitespace c ≡ false)
      (λ c d. is_whitespace_ascii c (omega arith) (omega arith)) (decimal n) (decimal-IsDigit n)
