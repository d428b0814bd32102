-- ===== src/Peer/Session/Stops.antt =====
-- Why a session of src/peer/session.rs ends without an error: the handler stopped it, or wanted it to stop.
use codecrafters_bittorrent.Prelude.{
  ℕ, ◌+◌, ◌%◌, ◌≡◌, refl, subst, true, List, [], ◌∷◌, Result, ok, err, if◌then◌else◌, Bool-cases,
  Result-cases, inl, inr, All,
}
use codecrafters_bittorrent.Utils.Words.{u32_mod}
use codecrafters_bittorrent.Peer.Connection.{PeerEvent}
use codecrafters_bittorrent.Peer.Connection.Handshake.{PeerConnection}
use codecrafters_bittorrent.Peer.Session.{
  SessionControl, continue, reconnect, stop, PeerSessionHandler, PeerSessionConfig, Attempt,
  LoopExit, Outcome, Ended, done, max_retries_reached, out_of_fuel, ended, after_sleep, after_event,
  after_loop, after_connect, try_peer, event_loop, exhausted, run_from, run, backoff_delay,
}
use codecrafters_bittorrent.Peer.Session.Rounds.{Undisturbed}

-- What a callback leaves: `Q`, and `D` where it stops the session, and `F` where it fails.
pub record Leaves {E S : Type 0} (Q D : S → Type 0) (F : E → S → Type 0)
    (r : Result E SessionControl × S) : Type 0 where
  pub keeps : Q r.1
  pub stops : r.0 ≡ ok stop → D r.1
  pub fails : (x : E) → r.0 ≡ err x → F x r.1

-- So do all callbacks of the handler, and where it wants to stop `D` holds.
pub record StopsAt {E S : Type 0} (Q D : S → Type 0) (F : E → S → Type 0)
    (h : PeerSessionHandler E S) : Type 0 where
  pub connect_leaves : (conn : PeerConnection) (s : S) → Q s → Leaves Q D F (h.on_connect conn s)
  pub event_leaves :
      (conn : PeerConnection) (e : PeerEvent) (s : S) → Q s → Leaves Q D F (h.on_event conn e s)
  pub wants : (s : S) → h.should_stop s ≡ true → D s

-- How the loop over the events and the session end.
record LoopEnds {E S : Type 0} (Q D : S → Type 0) (F : E → S → Type 0) (h : PeerSessionHandler E S)
    (r : LoopExit E × S) : Type 0 where
  keeps : Q r.1
  stopped_at : r.0 ≡ LoopExit.stopped → D r.1
  failed_at : (x : E) → r.0 ≡ LoopExit.failed x → F x r.1
  wanted : r.0 ≡ LoopExit.should_stop → h.should_stop r.1 ≡ true

pub record Ends {E S : Type 0} (D : S → Type 0) (F : E → S → Type 0) (r : Ended E S) : Type 0 where
  pub done_at : r.outcome ≡ done → D r.state
  pub failed_at : (x : E) → r.outcome ≡ Outcome.failed x → F x r.state

module _ {E S : Type 0} (Q D : S → Type 0) (F : E → S → Type 0) (h : PeerSessionHandler E S)
    (k : StopsAt Q D F h) where
  after_event-LoopEnds :
      (r : Result E SessionControl × S) (more : S → LoopExit E × S)
      → Leaves Q D F r
      → ((s : S) → Q s → LoopEnds Q D F h (more s))
      → LoopEnds Q D F h (after_event h r more)
  unfolding after_event
  after_event-LoopEnds (ok continue, s) more l next = next s l.keeps
  after_event-LoopEnds (ok reconnect, s) more l next = record {
    keeps = l.keeps;
    stopped_at = λ e. cc;
    failed_at = λ x e. cc;
    wanted = λ e. cc;
  }
  after_event-LoopEnds (ok stop, s) more l next = record {
    keeps = l.keeps;
    stopped_at = λ e. l.stops refl;
    failed_at = λ x e. cc;
    wanted = λ e. cc;
  }
  after_event-LoopEnds (err y, s) more l next = record {
    keeps = l.keeps;
    stopped_at = λ e. cc;
    failed_at = λ x e. l.fails x (cc e);
    wanted = λ e. cc;
  }

  wanted_stop : (s : S) → Q s → h.should_stop s ≡ true → LoopEnds Q D F h (LoopExit.should_stop, s)
  wanted_stop s q b = record {
    keeps = q;
    stopped_at = λ e. cc;
    failed_at = λ x e. cc;
    wanted = λ e. b;
  }

  event_loop-LoopEnds :
      (conn : PeerConnection) (arrivals : List ((S → S) × PeerEvent)) (closing : S → S) (s : S)
      → All (λ (x : (S → S) × PeerEvent). (t : S) → Q t → Q (x.0 t)) arrivals
      → ((t : S) → Q t → Q (closing t))
      → Q s
      → LoopEnds Q D F h (event_loop h conn arrivals closing s)
  unfolding event_loop
  event_loop-LoopEnds conn [] closing s ka kc q = elim (Bool-cases (h.should_stop s)) [
    | inl b ↦ rw b (wanted_stop s q b)
    | inr b ↦
        rw b
          (record { keeps = kc s q; stopped_at = λ e. cc; failed_at = λ x e. cc; wanted = λ e. cc })
  ]
  event_loop-LoopEnds conn ((before, event) ∷ arrivals) closing s ka kc q =
      elim (Bool-cases (h.should_stop s)) [
        | inl b ↦ rw b (wanted_stop s q b)
        | inr b ↦ rw b (
            after_event-LoopEnds _ _ (k.event_leaves conn event (before s) (ka.0 s q))
              (λ t. event_loop-LoopEnds conn arrivals closing t ka.1 kc))
      ]

  ended_done : (s : S) → D s → Ends D F (ended done s)
  ended_done s d = record { done_at = λ e. d; failed_at = λ x e. cc }

  ended_failed : (y : E) (s : S) → F y s → Ends D F (ended (Outcome.failed y) s)
  ended_failed y s f = record { done_at = λ e. cc; failed_at = λ x e. subst (λ z. F z s) (cc e) f }

  ended_other :
      (o : Outcome E) (s : S)
      → (o ≡ done → ⊥)
      → ((x : E) → o ≡ Outcome.failed x → ⊥)
      → Ends D F (ended o s)
  ended_other o s n m = record { done_at = λ e. absurd (n e); failed_at = λ x e. absurd (m x e) }

  module _ (delay : ℕ) (a : Attempt S) (u : Undisturbed Q a) (again : S → Ended E S)
      (next : (s : S) → Q s → Ends D F (again s)) where
    slept : (s : S) → Q s → Ends D F (after_sleep delay (again (a.asleep s)))
    slept s q =
        let r = next (a.asleep s) (u.asleep_keeps s q) in
        record { done_at = λ e. r.done_at e; failed_at = λ x e. r.failed_at x e }

    after_loop-Ends :
        (r : LoopExit E × S) → LoopEnds Q D F h r → Ends D F (after_loop h delay a.asleep again r)
    unfolding after_loop
    after_loop-Ends (LoopExit.should_stop, s) l =
        let b = l.wanted refl in rw b (ended_done s (k.wants s b))
    after_loop-Ends (LoopExit.reconnects, s) l = elim (Bool-cases (h.should_stop s)) [
      | inl b ↦ rw b (ended_done s (k.wants s b))
      | inr b ↦ rw b (slept s l.keeps)
    ]
    after_loop-Ends (LoopExit.stopped, s) l = ended_done s (l.stopped_at refl)
    after_loop-Ends (LoopExit.failed x, s) l = ended_failed x s (l.failed_at x refl)

    after_connect-Ends :
        (conn : PeerConnection) (r : Result E SessionControl × S)
        → Leaves Q D F r
        → Ends D F (after_connect h delay a conn again r)
    unfolding after_connect
    after_connect-Ends conn (ok continue, s) l =
        after_loop-Ends (event_loop h conn a.arrivals a.closing s)
          (event_loop-LoopEnds conn a.arrivals a.closing s u.before_keeps u.closing_keeps l.keeps)
    after_connect-Ends conn (ok reconnect, s) l = slept s l.keeps
    after_connect-Ends conn (ok stop, s) l = ended_done s (l.stops refl)
    after_connect-Ends conn (err x, s) l = ended_failed x s (l.fails x refl)

    try_peer-Ends : (s : S) → Q s → Ends D F (try_peer h delay a again s)
    unfolding try_peer
    try_peer-Ends s q = elim (Result-cases a.connection) [
      | inl (conn, e) ↦
          rw (e, try_peer)
            (after_connect-Ends conn (h.on_connect conn (a.connecting s))
              (k.connect_leaves conn (a.connecting s) (u.connecting_keeps s q)))
      | inr (x, e) ↦ rw (e, try_peer) (slept (a.connecting s) (u.connecting_keeps s q))
    ]

  module _ (c : PeerSessionConfig) where
    head-Ends :
        (attempts : ℕ) (s : S) (r : Ended E S)
        → Ends D F r
        → Ends D F (
            if h.should_stop s
            then ended done s
            else if exhausted c attempts
            then ended max_retries_reached s
            else r)
    head-Ends attempts s r l = elim (Bool-cases (h.should_stop s)) [
      | inl b ↦ rw b (ended_done s (k.wants s b))
      | inr b ↦ elim (Bool-cases (exhausted c attempts)) [
        | inl x ↦ rw (b, x) (ended_other _ s (λ e. cc) (λ x e. cc))
        | inr x ↦ rw (b, x) l
      ]
    ]

    run_from-Ends :
        (network : List (Attempt S)) (attempts : ℕ) (s : S)
        → All (Undisturbed Q) network
        → Q s
        → Ends D F (run_from h c network attempts s)
    unfolding run_from
    run_from-Ends [] attempts s u q =
        head-Ends attempts s _ (ended_other out_of_fuel s (λ e. cc) (λ x e. cc))
    run_from-Ends (a ∷ network) attempts s u q =
        let attempts' = (attempts + 1) % u32_mod in
        head-Ends attempts s _ (
          try_peer-Ends (backoff_delay c attempts') a u.0 (run_from h c network attempts')
            (λ t. run_from-Ends network attempts' t u.1) s q)

    -- What holds where the session ends, by its outcome.
    pub run-Ends :
        (network : List (Attempt S)) (s : S)
        → All (Undisturbed Q) network
        → Q s
        → Ends D F (run h c network s)
    unfolding run
    run-Ends network s u q = run_from-Ends network 0 s u q
