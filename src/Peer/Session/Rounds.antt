-- ===== src/Peer/Session/Rounds.antt =====
-- One round of the loop of src/peer/session.rs: what it comes to, and what it keeps of the state.
use codecrafters_bittorrent.Prelude.{
  ℕ, ◌≡◌, refl, false, List, [], ◌∷◌, Result, ok, err, Bool-cases, Result-cases, inl, inr, All,
}
use codecrafters_bittorrent.Peer.Connection.{PeerEvent}
use codecrafters_bittorrent.Peer.Connection.Handshake.{PeerConnection}
use codecrafters_bittorrent.Peer.Session.{
  SessionControl, continue, reconnect, stop, PeerSessionHandler, Attempt, LoopExit, Outcome, Ended,
  done, ended, after_sleep, after_event, after_loop, after_connect, try_peer, event_loop, exhausted,
  PeerSessionConfig, run, run_from,
}

-- The callbacks of a handler keep `Q`.
pub record KeptBy {E S : Type 0} (Q : S → Type 0) (h : PeerSessionHandler E S) : Type 0 where
  pub connect_keeps : (conn : PeerConnection) (s : S) → Q s → Q (h.on_connect conn s).1
  pub event_keeps :
      (conn : PeerConnection) (e : PeerEvent) (s : S) → Q s → Q (h.on_event conn e s).1

-- So do the other threads, all through an attempt.
pub record Undisturbed {S : Type 0} (Q : S → Type 0) (a : Attempt S) : Type 0 where
  pub connecting_keeps : (s : S) → Q s → Q (a.connecting s)
  pub before_keeps : All (λ (x : (S → S) × PeerEvent). (s : S) → Q s → Q (x.0 s)) a.arrivals
  pub closing_keeps : (s : S) → Q s → Q (a.closing s)
  pub asleep_keeps : (s : S) → Q s → Q (a.asleep s)

module _ {E S : Type 0} (Q : S → Type 0) (h : PeerSessionHandler E S) (k : KeptBy Q h) where
  after_event-keeps :
      (r : Result E SessionControl × S) (more : S → LoopExit E × S)
      → Q r.1
      → ((s : S) → Q s → Q (more s).1)
      → Q (after_event h r more).1
  unfolding after_event
  after_event-keeps (ok continue, s) more q next = next s q
  after_event-keeps (ok reconnect, s) more q next = q
  after_event-keeps (ok stop, s) more q next = q
  after_event-keeps (err e, s) more q next = q

  event_loop-keeps :
      (conn : PeerConnection) (arrivals : List ((S → S) × PeerEvent)) (closing : S → S) (s : S)
      → All (λ (x : (S → S) × PeerEvent). (t : S) → Q t → Q (x.0 t)) arrivals
      → ((t : S) → Q t → Q (closing t))
      → Q s
      → Q (event_loop h conn arrivals closing s).1
  unfolding event_loop
  event_loop-keeps conn [] closing s ka kc q = elim (Bool-cases (h.should_stop s)) [
    | inl b ↦ rw b q
    | inr b ↦ rw b (kc s q)
  ]
  event_loop-keeps conn ((before, event) ∷ arrivals) closing s ka kc q =
      elim (Bool-cases (h.should_stop s)) [
        | inl b ↦ rw b q
        | inr b ↦ rw b (
            after_event-keeps _ _ (k.event_keeps conn event (before s) (ka.0 s q))
              (λ t. event_loop-keeps conn arrivals closing t ka.1 kc))
      ]

-- A step of the loop over the events, by what the handler answers.
module _ {E S : Type 0} (h : PeerSessionHandler E S) (conn : PeerConnection) (before : S → S)
    (event : PeerEvent) (arrivals : List ((S → S) × PeerEvent)) (closing : S → S) (s t : S)
    (runs : h.should_stop s ≡ false) where
  pub event_loop_continue :
      h.on_event conn event (before s) ≡ (ok continue, t)
      → event_loop h conn ((before, event) ∷ arrivals) closing s
        ≡ event_loop h conn arrivals closing t
  unfolding event_loop after_event
  event_loop_continue e = rw (runs, e) refl

  pub event_loop_stop :
      h.on_event conn event (before s) ≡ (ok stop, t)
      → event_loop h conn ((before, event) ∷ arrivals) closing s ≡ (LoopExit.stopped, t)
  unfolding event_loop after_event
  event_loop_stop e = rw (runs, e) refl

-- A session whose first connection the handler stops.
module _ {E S : Type 0} (h : PeerSessionHandler E S) (c : PeerSessionConfig) (a : Attempt S)
    (network : List (Attempt S)) (conn : PeerConnection) (s t u : S) where
  pub run_stopped :
      h.should_stop s ≡ false
      → exhausted c 0 ≡ false
      → a.connection ≡ ok conn
      → h.on_connect conn (a.connecting s) ≡ (ok continue, t)
      → event_loop h conn a.arrivals a.closing t ≡ (LoopExit.stopped, u)
      → run h c (a ∷ network) s ≡ ended done u
  unfolding run run_from try_peer after_connect after_loop
  run_stopped runs more connected starts stops =
      rw (runs, more, connected, try_peer, starts, stops) refl

-- A round ends the session, or sleeps and then ends it or goes on; `Q` holds of the state there.
module _ {E S : Type 0} (Q : S → Type 0) (P : Ended E S → Type 0) (h : PeerSessionHandler E S)
    (k : KeptBy Q h) (delay : ℕ) (a : Attempt S) (u : Undisturbed Q a) (again : S → Ended E S)
    (pd : (s : S) → Q s → P (ended done s))
    (pf : (e : E) (s : S) → Q s → P (ended (Outcome.failed e) s))
    (ps : (s : S) → Q s → P (after_sleep delay (ended done s)))
    (pa : (s : S) → Q s → P (after_sleep delay (again s))) where
  after_loop_cases : (r : LoopExit E × S) → Q r.1 → P (after_loop h delay a.asleep again r)
  unfolding after_loop
  after_loop_cases (LoopExit.should_stop, s) q = elim (Bool-cases (h.should_stop s)) [
    | inl b ↦ rw b (pd s q)
    | inr b ↦ rw b (ps (a.asleep s) (u.asleep_keeps s q))
  ]
  after_loop_cases (LoopExit.reconnects, s) q = elim (Bool-cases (h.should_stop s)) [
    | inl b ↦ rw b (pd s q)
    | inr b ↦ rw b (pa (a.asleep s) (u.asleep_keeps s q))
  ]
  after_loop_cases (LoopExit.stopped, s) q = pd s q
  after_loop_cases (LoopExit.failed e, s) q = pf e s q

  after_connect_cases :
      (conn : PeerConnection) (r : Result E SessionControl × S)
      → Q r.1
      → P (after_connect h delay a conn again r)
  unfolding after_connect
  after_connect_cases conn (ok continue, s) q =
      after_loop_cases (event_loop h conn a.arrivals a.closing s)
        (event_loop-keeps Q h k conn a.arrivals a.closing s u.before_keeps u.closing_keeps q)
  after_connect_cases conn (ok reconnect, s) q = pa (a.asleep s) (u.asleep_keeps s q)
  after_connect_cases conn (ok stop, s) q = pd s q
  after_connect_cases conn (err e, s) q = pf e s q

  pub try_peer_cases : (s : S) → Q s → P (try_peer h delay a again s)
  unfolding try_peer
  try_peer_cases s q = elim (Result-cases a.connection) [
    | inl (conn, e) ↦
        rw (e, try_peer)
          (after_connect_cases conn (h.on_connect conn (a.connecting s))
            (k.connect_keeps conn (a.connecting s) (u.connecting_keeps s q)))
    | inr (x, e) ↦
        rw (e, try_peer)
          (pa (a.asleep (a.connecting s))
            (u.asleep_keeps (a.connecting s) (u.connecting_keeps s q)))
  ]
