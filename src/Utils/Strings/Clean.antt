-- ===== src/Utils/Strings/Clean.antt =====
-- Texts without a separator, or without white space.
use codecrafters_bittorrent.Prelude.{
  ℕ, ◌≡◌, refl, false, [], ◌∷◌, ◌++◌, none, some, All, ◌==◌, ==_refl,
}
use codecrafters_bittorrent.Utils.RawBytes.{Text}
use codecrafters_bittorrent.Utils.Strings.{
  is_whitespace, trim_start, trim_end, trim, split, split_once,
}

-- No character of the text is the separator.
abbrev pub Lacks : ℕ → Text → Type 0
Lacks separator = All (λ c. (c == separator) ≡ false)

pub split-Lacks : (separator : ℕ) (s : Text) → Lacks separator s → split separator s ≡ s ∷ []
unfolding split
split-Lacks separator [] h = refl
split-Lacks separator (c ∷ s) h = let b = h.0 in rw (b, split-Lacks separator s h.1) refl

pub split-append :
    (separator : ℕ) (s rest : Text)
    → Lacks separator s
    → split separator (s ++ separator ∷ rest) ≡ s ∷ split separator rest
unfolding split
split-append separator [] rest h = rw (==_refl separator) refl
split-append separator (c ∷ s) rest h =
    let b = h.0 in rw (b, split-append separator s rest h.1) refl

pub split_once-Lacks :
    (separator : ℕ) (s : Text) → Lacks separator s → split_once separator s ≡ none
unfolding split_once
split_once-Lacks separator [] h = refl
split_once-Lacks separator (c ∷ s) h = let b = h.0 in rw (b, split_once-Lacks separator s h.1) refl

pub split_once-append :
    (separator : ℕ) (s rest : Text)
    → Lacks separator s
    → split_once separator (s ++ separator ∷ rest) ≡ some (s, rest)
unfolding split_once
split_once-append separator [] rest h = rw (==_refl separator) refl
split_once-append separator (c ∷ s) rest h =
    let b = h.0 in rw (b, split_once-append separator s rest h.1) refl

abbrev pub IsSolid : Text → Type 0
IsSolid = All (λ c. is_whitespace c ≡ false)

trim_start-IsSolid : (s : Text) → IsSolid s → trim_start s ≡ s
unfolding trim_start
trim_start-IsSolid [] h = refl
trim_start-IsSolid (c ∷ s) h = let b = h.0 in rw b refl

trim_end-IsSolid : (s : Text) → IsSolid s → trim_end s ≡ s
unfolding trim_end
trim_end-IsSolid [] h = refl
trim_end-IsSolid (c ∷ []) h = let b = h.0 in rw b refl
trim_end-IsSolid (c ∷ d ∷ s) h = rw (trim_end-IsSolid (d ∷ s) h.1) refl

pub trim-IsSolid : (s : Text) → IsSolid s → trim s ≡ s
unfolding trim
trim-IsSolid s h = rw (trim_start-IsSolid s h) (trim_end-IsSolid s h)
