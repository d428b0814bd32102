-- ===== src/Peer/Metadata/Sets.antt =====
-- The sets of piece numbers of src/peer/metadata.rs, which are lists without repetition.
use codecrafters_bittorrent.Prelude.{
  ℕ, zero, suc, ◌≤◌, ◌<◌, ◌≡◌, refl, subst, true, false, ◌||◌, List, [], ◌∷◌, arith, length, All,
  ◌==◌, if◌then◌else◌, Bool-cases, inl, inr,
}
use codecrafters_bittorrent.Peer.Metadata.Fetcher.{contains, insert}

abbrev pub NoRepeat : List ℕ → Type 0
NoRepeat [] = Unit
NoRepeat (x ∷ xs) = (contains x xs ≡ false) × NoRepeat xs

pub contains-insert : (q a : ℕ) (xs : List ℕ) → contains q (insert a xs) ≡ (q == a || contains q xs)
unfolding insert
contains-insert q a xs = elim (Bool-cases (contains a xs)) [
  | inl old ↦ rw old (elim (Bool-cases (q == a)) [
    | inl same ↦ let e : q ≡ a = ground arith in rw (e, old) (ground arith)
    | inr other ↦ rw other refl
  ])
  | inr new ↦ rw new (unfold contains in refl)
]

pub insert-NoRepeat : (a : ℕ) (xs : List ℕ) → NoRepeat xs → NoRepeat (insert a xs)
unfolding insert
insert-NoRepeat a xs h = elim (Bool-cases (contains a xs)) [
  | inl old ↦ rw old h
  | inr new ↦ rw new (new, h)
]

pub insert-All : (P : ℕ → Type 0) (a : ℕ) (xs : List ℕ) → P a → All P xs → All P (insert a xs)
unfolding insert
insert-All P a xs p h = elim (Bool-cases (contains a xs)) [
  | inl old ↦ rw old h
  | inr new ↦ rw new (p, h)
]

-- The list without any `a`.
without : ℕ → List ℕ → List ℕ
without a [] = []
without a (x ∷ xs) = let rest = without a xs in if a == x then rest else x ∷ rest

contains-without :
    (q a : ℕ) (xs : List ℕ) → contains q (without a xs) ≡ (if q == a then false else contains q xs)
unfolding contains without
contains-without q a [] = ground arith
contains-without q a (x ∷ xs) = ground (arith, contains-without q a xs)

length-without-le : (a : ℕ) (xs : List ℕ) → length (without a xs) ≤ length xs
unfolding without
length-without-le a [] = omega arith
length-without-le a (x ∷ xs) = ground (arith, length-without-le a xs)

length-without-lt : (a : ℕ) (xs : List ℕ) → contains a xs ≡ true → length (without a xs) < length xs
unfolding contains without
length-without-lt a [] h = cc
length-without-lt a (x ∷ xs) h = ground (arith, length-without-lt a xs, length-without-le a xs)

length-without_absent :
    (a : ℕ) (xs : List ℕ) → contains a xs ≡ false → length (without a xs) ≡ length xs
unfolding contains without
length-without_absent a [] h = refl
length-without_absent a (x ∷ xs) h = ground (arith, length-without_absent a xs)

le-length-without : (a : ℕ) (xs : List ℕ) → NoRepeat xs → length xs ≤ suc (length (without a xs))
unfolding without
le-length-without a [] h = omega arith
le-length-without a (x ∷ xs) h = elim (Bool-cases (a == x)) [
  | inl same ↦
      let e : x ≡ a = ground arith in
      let absent : contains a xs ≡ false = subst (λ y. contains y xs ≡ false) e h.0 in
      ground (arith, length-without_absent a xs)
  | inr other ↦ ground (arith, le-length-without a xs h.1)
]

without-NoRepeat : (a : ℕ) (xs : List ℕ) → NoRepeat xs → NoRepeat (without a xs)
unfolding without
without-NoRepeat a [] h = tt
without-NoRepeat a (x ∷ xs) h = elim (Bool-cases (a == x)) [
  | inl same ↦ rw same (without-NoRepeat a xs h.1)
  | inr other ↦ rw other ((ground (arith, contains-without x a xs)), without-NoRepeat a xs h.1)
]

without-below : (n : ℕ) (xs : List ℕ) → All (λ x. x < suc n) xs → All (λ x. x < n) (without n xs)
unfolding without
without-below n [] h = tt
without-below n (x ∷ xs) h = elim (Bool-cases (n == x)) [
  | inl same ↦ rw same (without-below n xs h.1)
  | inr other ↦ rw other (ground arith, without-below n xs h.1)
]

nil_below : (xs : List ℕ) → All (λ x. x < 0) xs → length xs ≤ 0
nil_below [] h = omega arith
nil_below (x ∷ xs) h = absurd (omega arith)

-- A set of numbers below `n` has at most `n` of them.
length-le : (n : ℕ) (xs : List ℕ) → NoRepeat xs → All (λ x. x < n) xs → length xs ≤ n
length-le zero xs r h = nil_below xs h
length-le (suc n) xs r h = omega (
  arith,
  le-length-without n xs r,
  length-le n (without n xs) (without-NoRepeat n xs r) (without-below n xs h),
)

-- As many numbers below `n` as there are: each is there.
pub contains_full :
    (n : ℕ) (xs : List ℕ)
    → NoRepeat xs
    → All (λ x. x < n) xs
    → n ≤ length xs
    → (q : ℕ) → q < n
    → contains q xs ≡ true
contains_full n xs r h full q below = elim (Bool-cases (contains q xs)) [
  | inl there ↦ there
  | inr missing ↦ absurd (omega (arith, length-le n (q ∷ xs) (missing, r) (below, h)))
]

pub length-ge : (n : ℕ) (xs : List ℕ) → ((q : ℕ) → q < n → contains q xs ≡ true) → n ≤ length xs
length-ge zero xs h = omega arith
length-ge (suc n) xs h =
    let last = length-without-lt n xs (h n (omega arith)) in
    let rest =
      length-ge n (without n xs)
        (λ q below. let there = h q (omega arith) in ground (arith, contains-without q n xs)) in
    omega arith
