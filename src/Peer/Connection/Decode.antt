-- ===== src/Peer/Connection/Decode.antt =====
-- The `match` of `read_one_message` in src/peer/connection.rs: which payloads it can decode.
use codecrafters_bittorrent.Prelude.{
  ℕ, ◌+◌, ◌≤◌, ◌<◌, ◌≡◌, refl, sym, subst, Bool, true, false, [], ◌∷◌, arith, Bytes, length,
  length-take, length-drop, take, drop, Result, ok, err, ◌>>=◌, leb, ◌==◌, if◌then◌else◌, inl, inr,
  Bool-cases,
}
use Prim.Native.Nat.{zero-le}
use codecrafters_bittorrent.Peer.Connection.{
  PeerEvent, ReadError, panicked, word, word_at, decode, three_words,
}
use codecrafters_bittorrent.Utils.Words.{from_be_bytes}

-- How long a payload `decode` needs to index into.
pub needs : ℕ → ℕ
needs id =
    if id == 4 then 4 else if id == 6 then 12 else if id == 7 then 8 else if id == 8 then 12 else 0

word_four : (xs : Bytes) → length xs ≡ 4 → (n : ℕ) × (word xs ≡ ok n)
unfolding word
word_four [] h = absurd (omega arith)
word_four (a ∷ []) h = absurd (omega arith)
word_four (a ∷ b ∷ []) h = absurd (omega arith)
word_four (a ∷ b ∷ c ∷ []) h = absurd (omega arith)
word_four (a ∷ b ∷ c ∷ d ∷ []) h = (from_be_bytes a b c d, refl)
word_four (a ∷ b ∷ c ∷ d ∷ e ∷ xs) h = absurd (omega arith)

pub word_at_ok :
    (k : ℕ) (payload : Bytes) → k + 4 ≤ length payload → (n : ℕ) × (word_at k payload ≡ ok n)
unfolding word_at
word_at_ok k payload h =
    let (n, e) =
      word_four (take 4 (drop k payload))
        (omega (arith, length-take 4 (drop k payload), length-drop k payload)) in
    (n, ground arith)

pub word_at_short :
    (k : ℕ) (payload : Bytes) → length payload < k + 4 → word_at k payload ≡ err panicked
unfolding word_at
word_at_short k payload h = ground arith

-- A payload of `n` bytes or more is decoded, a shorter one panics.
pub data Reads (n : ℕ) (payload : Bytes) : Result ReadError PeerEvent → Type 0 where
  decoded : (e : PeerEvent) → n ≤ length payload → Reads n payload (ok e)
  short : length payload < n → Reads n payload (err panicked)

Reads-if :
    {n : ℕ} {payload : Bytes} (b : Bool) {x y : Result ReadError PeerEvent}
    → (b ≡ true → Reads n payload x)
    → (b ≡ false → Reads n payload y)
    → Reads n payload (if b then x else y)
Reads-if true hx hy = hx refl
Reads-if false hx hy = hy refl

Reads-word_at :
    {n : ℕ} {payload : Bytes} (k : ℕ) (f : ℕ → Result ReadError PeerEvent)
    → k + 4 ≤ n
    → ((v : ℕ) → k + 4 ≤ length payload → Reads n payload (f v))
    → Reads n payload (word_at k payload >>= f)
Reads-word_at {n} {payload} k f h next = elim (Bool-cases (leb (k + 4) (length payload))) [
  | inl long ↦ let (v, e) = word_at_ok k payload (ground arith) in rw e (next v (ground arith))
  | inr cut ↦ rw (word_at_short k payload (ground arith)) (short (ground arith))
]

Reads-three_words :
    (event : ℕ → ℕ → ℕ → PeerEvent) (payload : Bytes) → Reads 12 payload (three_words event payload)
unfolding three_words
Reads-three_words event payload = Reads-word_at 0 _ (omega arith) λ index _.
    Reads-word_at 4 _ (omega arith) λ begin _.
      Reads-word_at 8 _ (omega arith) λ size h. decoded (event index begin size) (omega arith)

as_id :
    {payload : Bytes} {r : Result ReadError PeerEvent} (id k : ℕ)
    → (id == k) ≡ true
    → Reads (needs k) payload r
    → Reads (needs id) payload r
as_id {payload} {r} id k e h =
    let same : id ≡ k = ground arith in subst (λ n. Reads (needs n) payload r) (sym same) h

needs_other :
    (id : ℕ)
    → (id == 4) ≡ false
    → (id == 6) ≡ false
    → (id == 7) ≡ false
    → (id == 8) ≡ false
    → needs id ≡ 0
unfolding needs
needs_other id e4 e6 e7 e8 = rw (e4, e6, e7, e8)

-- Decoding a payload never reports an I/O error: it succeeds exactly when the payload is as long as
-- its message id needs, and panics otherwise.
pub decode-Reads : (id : ℕ) (payload : Bytes) → Reads (needs id) payload (decode id payload)
unfolding decode needs
decode-Reads id payload =
    Reads-if (id == 0) (λ e. as_id id 0 e (decoded _ zero-le))
      λ _.
        Reads-if (id == 1) (λ e. as_id id 1 e (decoded _ zero-le))
          λ _.
            Reads-if (id == 2) (λ e. as_id id 2 e (decoded _ zero-le))
              λ _.
                Reads-if (id == 3) (λ e. as_id id 3 e (decoded _ zero-le))
                  λ _.
                    Reads-if (id == 4)
                      (λ e.
                        as_id id 4 e
                          (Reads-word_at 0 _ (omega arith) λ idx h. decoded _ (omega arith)))
                      λ e4.
                        Reads-if (id == 5) (λ e. as_id id 5 e (decoded _ zero-le))
                          λ _.
                            Reads-if (id == 6) (λ e. as_id id 6 e (Reads-three_words _ payload))
                              λ e6.
                                Reads-if (id == 7)
                                  (λ e. as_id id 7 e (
                                    Reads-word_at 0 _ (omega arith) λ index _.
                                      Reads-word_at 4 _ (omega arith)
                                        λ begin h. decoded _ (omega arith)))
                                  λ e7.
                                    Reads-if (id == 8)
                                      (λ e. as_id id 8 e (Reads-three_words _ payload))
                                      λ e8.
                                        let other : needs id ≡ 0 = needs_other id e4 e6 e7 e8 in
                                        Reads-if (id == 20) (λ _. decoded _ (omega arith))
                                          λ _. decoded _ (omega arith)
