-- ===== src/Peer/Session/Safety.antt =====
-- Invariants of the sessions of src/peer/session.rs.
use codecrafters_bittorrent.Prelude.{
  ◌+◌, ◌%◌, ℕ, List, [], ◌∷◌, if◌then◌else◌, Bool-cases, inl, inr, All,
}
use codecrafters_bittorrent.Peer.Session.{
  PeerSessionHandler, PeerSessionConfig, Attempt, Ended, done, max_retries_reached, out_of_fuel,
  ended, exhausted, run_from, run, backoff_delay, try_peer,
}
use codecrafters_bittorrent.Utils.Words.{u32_mod}
use codecrafters_bittorrent.Peer.Session.Rounds.{KeptBy, Undisturbed, try_peer_cases}

module _ {E S : Type 0} (Q : S → Type 0) (h : PeerSessionHandler E S) (c : PeerSessionConfig)
    (k : KeptBy Q h) where
  head-keeps :
      (attempts : ℕ) (s : S) (r : Ended E S)
      → Q s
      → Q r.state
      → Q
          (if h.should_stop s
            then ended done s
            else if exhausted c attempts
            then ended max_retries_reached s
            else r).state
  head-keeps attempts s r q qr = elim (Bool-cases (h.should_stop s)) [
    | inl b ↦ rw b q
    | inr b ↦ elim (Bool-cases (exhausted c attempts)) [
      | inl x ↦ rw (b, x) q
      | inr x ↦ rw (b, x) qr
    ]
  ]

  run_from-keeps :
      (network : List (Attempt S)) (attempts : ℕ) (s : S)
      → All (Undisturbed Q) network
      → Q s
      → Q (run_from h c network attempts s).state
  unfolding run_from
  run_from-keeps [] attempts s u q = head-keeps attempts s (ended out_of_fuel s) q q
  run_from-keeps (a ∷ network) attempts s u q =
      let attempts' = (attempts + 1) % u32_mod in
      let delay = backoff_delay c attempts' in
      let again = run_from h c network attempts' in
      head-keeps attempts s (try_peer h delay a again s) q (
        try_peer_cases Q (λ r. Q r.state) h k delay a u.0 again (λ t qt. qt) (λ e t qt. qt)
          (λ t qt. qt) (λ t. run_from-keeps network attempts' t u.1) s q)

  -- What the callbacks and the other threads keep, a session keeps.
  pub run-keeps :
      (network : List (Attempt S)) (s : S)
      → All (Undisturbed Q) network
      → Q s
      → Q (run h c network s).state
  unfolding run
  run-keeps network s = run_from-keeps network 0 s
