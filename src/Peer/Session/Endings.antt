-- ===== src/Peer/Session/Endings.antt =====
-- How the sessions of src/peer/session.rs end, by what the callbacks answered.
use codecrafters_bittorrent.Prelude.{
  ◌≡◌, ◌≢◌, ◌<◌, ◌≤◌, refl, subst, ap, ◌∙◌, length, true, ◌⊎◌, inl, inr, List, [], ◌∷◌, Result, ok,
  err, All,
}
use codecrafters_bittorrent.Peer.Connection.{PeerEvent}
use codecrafters_bittorrent.Peer.Connection.Handshake.{PeerConnection}
use codecrafters_bittorrent.Peer.Session.{
  SessionControl, stop, PeerSessionHandler, PeerSessionConfig, Attempt, Outcome, Ended, done,
  max_retries_reached, out_of_fuel, run,
}
use codecrafters_bittorrent.Peer.Session.Rounds.{Undisturbed}
use codecrafters_bittorrent.Peer.Session.Retries.{delays, any_attempt, run-Retried}
use codecrafters_bittorrent.Peer.Session.Stops.{Leaves, StopsAt, Ends, run-Ends}

module _ {E S : Type 0} (h : PeerSessionHandler E S) where
  -- A callback has this result, at a connection and a state.
  abbrev pub Answers : Result E SessionControl × S → Type 0
  Answers r =
      (conn : PeerConnection) × (s : S) × ((h.on_connect conn s ≡ r)
        ⊎ ((e : PeerEvent) × (h.on_event conn e s ≡ r)))

  -- Why a session ends without an error.
  abbrev pub IsWanted : S → Type 0
  IsWanted s = (h.should_stop s ≡ true) ⊎ Answers (ok stop, s)

  answer-Leaves :
      (r : Result E SessionControl × S)
      → Answers r
      → Leaves (λ _. Unit {0}) IsWanted (λ x s. Answers (err x, s)) r
  answer-Leaves (o, s) a = record {
    keeps = tt;
    stops = λ e. inr (subst (λ k. Answers (k, s)) e a);
    fails = λ x e. subst (λ k. Answers (k, s)) e a;
  }

  handler-StopsAt : StopsAt (λ _. Unit {0}) IsWanted (λ x s. Answers (err x, s)) h
  handler-StopsAt = record {
    connect_leaves = λ conn s _. answer-Leaves (h.on_connect conn s) (conn, s, inl refl);
    event_leaves = λ conn e s _. answer-Leaves (h.on_event conn e s) (conn, s, inr (e, refl));
    wants = λ s b. inl b;
  }

  any_network : (network : List (Attempt S)) → All (Undisturbed (λ _. Unit {0})) network
  any_network [] = tt
  any_network (a ∷ network) = (any_attempt a, any_network network)

  module _ (c : PeerSessionConfig) where
    -- Why a session ended, by its outcome.
    abbrev pub IsEnding : Ended E S → Type 0
    IsEnding r =
        ((r.outcome ≡ done) × ((h.should_stop r.state ≡ true) ⊎ Answers (ok stop, r.state)))
        ⊎ (((x : E) × (r.outcome ≡ Outcome.failed x) × Answers (err x, r.state))
            ⊎ ((r.outcome ≡ max_retries_reached) × (r.slept ≡ delays c 0 c.max_retries)))

    ended-IsEnding :
        (r : Ended E S) (o : Outcome E)
        → r.outcome ≡ o
        → Ends IsWanted (λ x t. Answers (err x, t)) r
        → (r.outcome ≢ out_of_fuel)
        → (r.slept ≡ delays c 0 (length r.slept))
        → (r.outcome ≡ max_retries_reached → length r.slept ≡ c.max_retries)
        → IsEnding r
    ended-IsEnding r done e ends fuel slept full = inl (e, ends.done_at e)
    ended-IsEnding r max_retries_reached e ends fuel slept full =
        inr (inr (e, slept ∙ ap (delays c 0) (full e)))
    ended-IsEnding r (Outcome.failed x) e ends fuel slept full =
        inr (inl (x, e, ends.failed_at x e))
    ended-IsEnding r out_of_fuel e ends fuel slept full = absurd (fuel e)

    -- With a limit from 1 to 255 on the retries and a network that answers at least that many
    -- attempts, whatever the network and the other threads do, a session ends in one of three ways:
    -- without an error, in a state in which the handler wants to stop, or which a callback leaves with
    -- the answer `Stop`; with an error that a callback returns, in the state that it leaves; or with
    -- all retries used up, after a sleep of the backoff delay for each of them, in order.
    pub run_ends :
        (network : List (Attempt S)) (s : S)
        → 0 < c.max_retries
        → c.max_retries < 256
        → c.max_retries ≤ length network
        → IsEnding (run h c network s)
    run_ends network s pos small enough =
        let r = run h c network s in
        let (fuel, slept, _, full) = run-Retried h c network s pos small enough in
        let ends =
          run-Ends (λ _. Unit) IsWanted (λ x t. Answers (err x, t)) h handler-StopsAt c network s
            (any_network network) tt in
        ended-IsEnding r r.outcome refl ends fuel slept full
