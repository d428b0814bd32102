-- ===== src/Peer/Session/Retries.antt =====
-- How often src/peer/session.rs tries to connect, and how long it sleeps in between.
use codecrafters_bittorrent.Prelude.{
  ℕ, zero, suc, ◌+◌, ◌%◌, ◌≤◌, ◌<◌, ◌≡◌, ◌≢◌, refl, ap, true, false, List, [], ◌∷◌, arith, length,
  All, if◌then◌else◌, Bool-cases, inl, inr,
}
use Prim.Native.Nat.{zero-le}
use codecrafters_bittorrent.Utils.Words.{u32_mod}
use codecrafters_bittorrent.Peer.Connection.{PeerEvent}
use codecrafters_bittorrent.Peer.Session.Rounds.{KeptBy, Undisturbed, try_peer_cases}
use codecrafters_bittorrent.Peer.Session.{
  PeerSessionHandler, PeerSessionConfig, backoff_delay, Attempt, Outcome, Ended, done,
  max_retries_reached, out_of_fuel, ended, after_sleep, exhausted, run_from, run,
}

-- Nothing is asked of the callbacks and the other threads here.
any_handler : {E S : Type 0} (h : PeerSessionHandler E S) → KeptBy (λ _. Unit {0}) h
any_handler h = record { connect_keeps = λ _ _ _. tt; event_keeps = λ _ _ _ _. tt }

any_arrivals :
    {S : Type 0} (xs : List ((S → S) × PeerEvent))
    → All (λ (x : (S → S) × PeerEvent). (s : S) → Unit {0} → Unit {0}) xs
any_arrivals [] = tt
any_arrivals (x ∷ xs) = (λ _ _. tt, any_arrivals xs)

pub any_attempt : {S : Type 0} (a : Attempt S) → Undisturbed (λ _. Unit {0}) a
any_attempt a = record {
  connecting_keeps = λ _ _. tt;
  before_keeps = any_arrivals a.arrivals;
  closing_keeps = λ _ _. tt;
  asleep_keeps = λ _ _. tt;
}

-- The delays of the attempts after the first `made`.
pub delays : PeerSessionConfig → ℕ → ℕ → List ℕ
delays c made zero = []
delays c made (suc k) = backoff_delay c (suc made) ∷ delays c (suc made) k

-- A run that has made `made` attempts, and can make `left` more.
pub record Retried {E S : Type 0} (c : PeerSessionConfig) (made left : ℕ) (r : Ended E S)
    : Type 0 where
  pub slept_delays : r.slept ≡ delays c made (length r.slept)
  pub within : made + length r.slept ≤ c.max_retries
  pub enough : c.max_retries ≤ made + left → r.outcome ≢ out_of_fuel
  pub used_up : r.outcome ≡ max_retries_reached → made + length r.slept ≡ c.max_retries

module _ {E S : Type 0} (c : PeerSessionConfig) (made left : ℕ) where
  Retried-ended :
      (o : Outcome E) (s : S)
      → made ≤ c.max_retries
      → (c.max_retries ≤ made + left → o ≢ out_of_fuel)
      → (o ≡ max_retries_reached → made ≡ c.max_retries)
      → Retried c made left (ended o s)
  unfolding delays
  Retried-ended o s h fuel full = record {
    slept_delays = refl;
    within = omega arith;
    enough = fuel;
    used_up = λ e. omega (arith, full e);
  }

  Retried-after_sleep :
      (r : Ended E S)
      → Retried c (suc made) left r
      → Retried c made (suc left) (after_sleep (backoff_delay c (suc made)) r)
  unfolding delays
  Retried-after_sleep r h = record {
    slept_delays = ap (λ l. backoff_delay c (suc made) ∷ l) h.slept_delays;
    within = omega (arith, h.within);
    enough = λ e. h.enough (omega arith);
    used_up = λ e. omega (arith, h.used_up e);
  }

module _ {E S : Type 0} (h : PeerSessionHandler E S) (c : PeerSessionConfig) where
  exhausted-eq : (made : ℕ) → exhausted c made ≡ true → c.max_retries ≤ made
  unfolding exhausted
  exhausted-eq made e = ground arith

  not_exhausted : (made : ℕ) → 0 < c.max_retries → exhausted c made ≡ false → made < c.max_retries
  unfolding exhausted
  not_exhausted made pos e = ground arith

  -- The tests at the head of the loop.
  head-Retried :
      (made left : ℕ) (s : S) (r : Ended E S)
      → 0 < c.max_retries
      → made ≤ c.max_retries
      → (made < c.max_retries → Retried c made left r)
      → Retried c made left (
          if h.should_stop s
          then ended done s
          else if exhausted c made
          then ended max_retries_reached s
          else r)
  head-Retried made left s r pos le next = elim (Bool-cases (h.should_stop s)) [
    | inl b ↦ rw b (Retried-ended c made left done s le (λ _. cc) (λ e. cc))
    | inr b ↦ elim (Bool-cases (exhausted c made)) [
      | inl x ↦
          rw (b, x)
            (Retried-ended c made left max_retries_reached s le (λ _. cc)
              (λ _. omega (arith, exhausted-eq made x)))
      | inr x ↦ rw (b, x) (next (not_exhausted made pos x))
    ]
  ]

  run_from-Retried :
      (network : List (Attempt S)) (made : ℕ) (s : S)
      → 0 < c.max_retries
      → c.max_retries < 256
      → made ≤ c.max_retries
      → Retried c made (length network) (run_from h c network made s)
  unfolding run_from
  run_from-Retried [] made s pos small le =
      head-Retried made 0 s (ended out_of_fuel s) pos le
        λ below. Retried-ended c made 0 out_of_fuel s le (λ full e. omega arith) (λ e. cc)
  run_from-Retried (a ∷ network) made s pos small le =
      head-Retried made (suc (length network)) s _ pos le λ below.
        let next : (made + 1) % u32_mod ≡ suc made = omega arith in
        rw next (
          try_peer_cases (λ _. Unit) (Retried c made (suc (length network))) h (any_handler h)
            (backoff_delay c (suc made)) a (any_attempt a) (run_from h c network (suc made))
            (λ t _. Retried-ended c made _ done t le (λ _. cc) (λ e. cc))
            (λ e t _. Retried-ended c made _ (Outcome.failed e) t le (λ _. cc) (λ e. cc))
            (λ t _.
              Retried-after_sleep c made _ _
                (Retried-ended c (suc made) _ done t below (λ _. cc) (λ e. cc)))
            (λ t _.
              Retried-after_sleep c made _ _
                (run_from-Retried network (suc made) t pos small below))
            s tt)

  -- With a limit from 1 to 255 on the retries and a network that answers at least that many attempts:
  -- a session ends; it slept the backoff delays of the first attempts, in order, at most as many as
  -- the limit, and reports that the retries are used up only after exactly that many.
  pub run-Retried :
      (network : List (Attempt S)) (s : S)
      → 0 < c.max_retries
      → c.max_retries < 256
      → c.max_retries ≤ length network
      → let r = run h c network s in
        (r.outcome ≢ out_of_fuel)
        × (r.slept ≡ delays c 0 (length r.slept))
        × (length r.slept ≤ c.max_retries)
        × (r.outcome ≡ max_retries_reached → length r.slept ≡ c.max_retries)
  unfolding run
  run-Retried network s pos small enough =
      let k = run_from-Retried network 0 s pos small zero-le in
      (
        k.enough (omega arith),
        k.slept_delays,
        omega (arith, k.within),
        λ e. omega (arith, k.used_up e),
      )
