-- ===== src/Download/Queue/Fleet.antt =====
-- src/download/queue.rs as the workers of src/download/worker.rs use it: any number of threads take
-- pieces, give them back, complete them, or end while they hold one. The steps interleave freely.
use codecrafters_bittorrent.Prelude.{
  ℕ, zero, suc, ◌+◌, ◌≤◌, ◌<◌, ◌≡◌, ◌≢◌, refl, ap, ◌∙◌, ◌↔◌, Bool, true, false, List, [], ◌∷◌, ◌++◌,
  arith, length, length-append, ◌==◌, if◌then◌else◌, Bool-cases, inl, inr,
}
use codecrafters_bittorrent.Download.Queue.{
  PieceQueue, piece, new, pop_from, pop, push, mark_completed, wait_until_finished, u32_mod,
}

-- How often `a` stands in the list.
abbrev pub count : ℕ → List ℕ → ℕ
count a [] = 0
count a (x ∷ xs) = (if a == x then 1 else 0) + count a xs

pub count-append :
    (i : ℕ) (front back : List ℕ) → count i (front ++ back) ≡ count i front + count i back
count-append i [] back = omega arith
count-append i (j ∷ front) back = omega (arith, count-append i front back)

pub ruleset counts = (arith, count-append)

-- The pieces of one download: in the queue, in the hands of a worker, written, or lost with a worker
-- that ended without giving its piece back.
pub record Fleet : Type 0 where
  pub shared : PieceQueue
  pub held : List ℕ
  pub written : List ℕ
  pub lost : List ℕ

abbrev pub start : List ℕ → Fleet
start ids = record { shared = new ids; held = []; written = []; lost = [] }

-- What a thread does in one critical section.
pub data Step (s : Fleet) : Fleet → Type 0 where
  takes :
      (i : ℕ) (q : PieceQueue)
      → pop s.shared ≡ (q, piece i)
      → Step s (record s { shared = q; held = i ∷ s.held })
  waits : Step s s
  gives_back :
      (i : ℕ) (xs ys : List ℕ)
      → s.held ≡ xs ++ i ∷ ys
      → Step s (record s { shared = push s.shared i; held = xs ++ ys })
  completes :
      (i : ℕ) (xs ys : List ℕ)
      → s.held ≡ xs ++ i ∷ ys
      → Step s
          (record s { shared = mark_completed s.shared; held = xs ++ ys; written = i ∷ s.written })
  ends :
      (i : ℕ) (xs ys : List ℕ)
      → s.held ≡ xs ++ i ∷ ys
      → Step s (record s { held = xs ++ ys; lost = i ∷ s.lost })

pub data Reach (s : Fleet) : Fleet → Type 0 where
  here : Reach s s
  next : {t u : Fleet} → Reach s t → Step t u → Reach s u

-- The places of the pieces of `ids`, and the counters of the queue.
pub record Accounted (ids : List ℕ) (s : Fleet) : Type 0 where
  pub total : s.shared.total_pieces ≡ length ids
  pub small : length ids < u32_mod
  pub completed_written : s.shared.completed ≡ length s.written
  pub places : length s.shared.queue + length s.held + length s.written + length s.lost ≡ length ids
  pub open_below : s.shared.finished ≡ false → length ids ≢ 0 → length s.written < length ids
  pub finished_full : s.shared.finished ≡ true → (length s.written ≡ length ids) × (0 < length ids)

abbrev pub everywhere : ℕ → Fleet → ℕ
everywhere a s = count a s.shared.queue + count a s.held + count a s.written + count a s.lost

start-Accounted : (ids : List ℕ) → length ids < u32_mod → Accounted ids (start ids)
unfolding new
start-Accounted ids h = ground arith

length_middle : (i : ℕ) (xs ys : List ℕ) → length (xs ++ i ∷ ys) ≡ suc (length (xs ++ ys))
length_middle i [] ys = refl
length_middle i (x ∷ xs) ys = ap suc (length_middle i xs ys)

count_middle : (a i : ℕ) (xs ys : List ℕ) → count a (xs ++ i ∷ ys) ≡ count a (i ∷ xs ++ ys)
count_middle a i xs ys = omega (arith, count-append a xs (i ∷ ys), count-append a xs ys)

-- What a round that yields a piece did to the queue.
pub record Took (q q' : PieceQueue) (i : ℕ) : Type 0 where
  pub front : q.queue ≡ i ∷ q'.queue
  pub completed_kept : q'.completed ≡ q.completed
  pub finished_kept : q'.finished ≡ q.finished
  pub total_kept : q'.total_pieces ≡ q.total_pieces

pop_from-Took :
    (q q' : PieceQueue) (xs : List ℕ) (i : ℕ)
    → q.queue ≡ xs
    → pop_from q xs ≡ (q', piece i)
    → Took q q' i
unfolding pop_from
pop_from-Took q q' [] i h e = ground arith
pop_from-Took q q' (x ∷ xs) i h e = ground arith

pub pop-Took : (q q' : PieceQueue) (i : ℕ) → pop q ≡ (q', piece i) → Took q q' i
unfolding pop
pop-Took q q' i e = pop_from-Took q q' q.queue i refl e

Step-Accounted : {ids : List ℕ} {s t : Fleet} → Accounted ids s → Step s t → Accounted ids t
unfolding push mark_completed
Step-Accounted {s = s} h (takes i q e) =
    let took = pop-Took s.shared q i e in let front = ap length took.front in ground arith
Step-Accounted h waits = h
Step-Accounted {s = s} h (gives_back i xs ys e) =
    let split = ap length e in
    ground (arith, length_middle i xs ys, length-append s.shared.queue (i ∷ []))
Step-Accounted h (completes i xs ys e) =
    let split = ap length e in ground (arith, length_middle i xs ys)
Step-Accounted h (ends i xs ys e) = let split = ap length e in ground (arith, length_middle i xs ys)

-- While a worker holds a piece the queue is open, so what it gives back is not dropped.
held_open :
    {ids : List ℕ} {s : Fleet} (i : ℕ) (xs ys : List ℕ)
    → Accounted ids s
    → s.held ≡ xs ++ i ∷ ys
    → s.shared.finished ≡ false
held_open i xs ys h e = let split = ap length e in ground (arith, length_middle i xs ys)

Step-everywhere :
    {ids : List ℕ} {s t : Fleet} (a : ℕ)
    → Accounted ids s
    → Step s t
    → everywhere a t ≡ everywhere a s
unfolding push mark_completed
Step-everywhere {s = s} a h (takes i q e) =
    let took = pop-Took s.shared q i e in let front = ap (count a) took.front in omega arith
Step-everywhere a h waits = refl
Step-everywhere {s = s} a h (gives_back i xs ys e) =
    let split = ap (count a) e in
    rw (held_open i xs ys h e)
      (omega (arith, count_middle a i xs ys, count-append a s.shared.queue (i ∷ [])))
Step-everywhere {s = s} a h (completes i xs ys e) =
    let split = ap (count a) e in rw (held_open i xs ys h e) (omega (arith, count_middle a i xs ys))
Step-everywhere {s = s} a h (ends i xs ys e) =
    let split = ap (count a) e in omega (arith, count_middle a i xs ys)

-- For fewer than 2^32 pieces, in every interleaving of the workers' steps: each piece index is in the
-- queue, held, written or lost as often as the download started with it; the counters agree with the
-- written pieces, and the queue is finished only when all are written.
pub Reach-Accounted :
    (ids : List ℕ) {s : Fleet} (a : ℕ)
    → length ids < u32_mod
    → Reach (start ids) s
    → Accounted ids s × (everywhere a s ≡ count a ids)
Reach-Accounted ids a small here = (start-Accounted ids small, unfold new in omega arith)
Reach-Accounted ids a small (next r st) =
    let (h, e) = Reach-Accounted ids a small r in (Step-Accounted h st, Step-everywhere a h st ∙ e)

nil_of_length : (xs : List ℕ) → length xs ≡ 0 → xs ≡ []
nil_of_length [] h = refl
nil_of_length (x ∷ xs) h = absurd (omega arith)

written_finished :
    (ids : List ℕ) {s : Fleet}
    → Accounted ids s
    → 0 < length ids
    → length s.written ≡ length ids
    → s.shared.finished ≡ true
written_finished ids {s} h some_piece full = elim (Bool-cases s.shared.finished) [
  | inl shut ↦ shut
  | inr opened ↦ absurd (omega (arith, h.open_below opened (omega arith)))
]

-- For fewer than 2^32 pieces and at least one, in every interleaving of the workers' steps: the queue
-- is finished exactly when as many pieces are written as the download has; then the queue and all
-- hands are empty, no piece is lost, and each piece is written as often as it was asked for.
pub finished_iff_written :
    (ids : List ℕ) {s : Fleet} (a : ℕ)
    → length ids < u32_mod
    → 0 < length ids
    → Reach (start ids) s
    → ((wait_until_finished s.shared ≡ true) ↔ (length s.written ≡ length ids))
      × (wait_until_finished s.shared ≡ true
          → (s.shared.queue ≡ [])
            × (s.held ≡ [])
            × (s.lost ≡ [])
            × (count a s.written ≡ count a ids))
unfolding wait_until_finished
finished_iff_written ids {s} a small some_piece r =
    let (h, e) = Reach-Accounted ids a small r in
    (
      (λ f. (h.finished_full f).0, written_finished ids h some_piece),
      λ f.
          let (full, _) = h.finished_full f in
          let in_queue = nil_of_length s.shared.queue (omega arith) in
          let in_hands = nil_of_length s.held (omega arith) in
          let gone = nil_of_length s.lost (omega arith) in
          (
            in_queue,
            in_hands,
            gone,
            omega (arith, ap (count a) in_queue, ap (count a) in_hands, ap (count a) gone),
          ),
    )

Step-lost : {s t : Fleet} → Step s t → length s.lost ≤ length t.lost
Step-lost (takes i q e) = omega arith
Step-lost waits = omega arith
Step-lost (gives_back i xs ys e) = omega arith
Step-lost (completes i xs ys e) = omega arith
Step-lost (ends i xs ys e) = omega arith

Reach-lost : {s t : Fleet} → Reach s t → length s.lost ≤ length t.lost
Reach-lost here = omega arith
Reach-lost (next r st) = omega (arith, Reach-lost r, Step-lost st)

pub Reach-trans : {s t u : Fleet} → Reach s t → Reach t u → Reach s u
Reach-trans r here = r
Reach-trans r (next r' st) = next (Reach-trans r r') st

-- For fewer than 2^32 pieces: once a piece is lost with a worker that ended, the manager's wait does
-- not return in any later state.
pub lost_never_finished :
    (ids : List ℕ) {s t : Fleet}
    → length ids < u32_mod
    → Reach (start ids) s
    → 0 < length s.lost
    → Reach s t
    → wait_until_finished t.shared ≡ false
unfolding wait_until_finished
lost_never_finished ids {s} {t} small r lost more =
    let (h, _) = Reach-Accounted ids 0 small (Reach-trans r more) in ground (arith, Reach-lost more)

-- In every interleaving of the workers' steps, a download of no piece is not finished.
pub empty_never_finished : {s : Fleet} → Reach (start []) s → wait_until_finished s.shared ≡ false
unfolding wait_until_finished
empty_never_finished {s} r = let (h, _) = Reach-Accounted [] 0 (omega arith) r in ground arith
