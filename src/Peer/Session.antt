-- ===== src/Peer/Session.antt =====
-- src/peer/session.rs: the loop that connects to a peer, hands its events to a handler, and retries
-- with a growing delay. A duration is its number of nanoseconds. The network is a parameter: what each
-- attempt to connect gives and which events then arrive. While the thread waits, other threads may
-- change the shared part of the handler's state; such a change is a function on it.
pub mod Backoff
pub mod Rounds
pub mod Retries
pub mod Safety
pub mod Stops
pub mod Endings
use codecrafters_bittorrent.Prelude.{
  ℕ, zero, suc, ◌+◌, ◌-◌, ◌*◌, ◌%◌, ◌^◌, Bool, true, false, List, [], ◌∷◌, Result, ok, err, leb,
  ltb, ◌&&◌, if◌then◌else◌, min,
}
use Prim.Native.Nat.{max}
use codecrafters_bittorrent.Utils.Words.{u32_mod}
use codecrafters_bittorrent.Peer.Connection.{PeerEvent}
use codecrafters_bittorrent.Peer.Connection.Handshake.{PeerConnection, ConnectError}

pub data SessionControl : Type 0 where
  continue reconnect stop : SessionControl

-- The three callbacks of a handler. `E` is its error, the state `S` also holds what it sends.
pub record PeerSessionHandler (E S : Type 0) : Type 0 where
  pub on_connect : PeerConnection → S → Result E SessionControl × S
  pub on_event : PeerConnection → PeerEvent → S → Result E SessionControl × S
  pub should_stop : S → Bool

-- `backoff_base_secs` and `backoff_cap_secs` by the durations that they stand for.
pub record PeerSessionConfig : Type 0 where
  pub backoff_base : ℕ
  pub backoff_cap : ℕ
  pub max_retries : ℕ

unfoldable pub default : PeerSessionConfig
default = record { backoff_base = 1_000_000_000; backoff_cap = 3_000_000_000; max_retries = 2 }

unfoldable pub aggressive : PeerSessionConfig
aggressive = record { backoff_base = 500_000_000; backoff_cap = 1_000_000_000; max_retries = 1 }

-- `Duration::MAX`.
abbrev pub duration_max : ℕ
duration_max = 2 ^ 64 * 1_000_000_000 - 1

unfoldable pub backoff_delay : PeerSessionConfig → ℕ → ℕ
backoff_delay c attempts =
    let cap = max c.backoff_cap c.backoff_base in
    let shift = min attempts 10 in
    let factor = 2 ^ shift in
    let wait = min (c.backoff_base * factor) duration_max in if ltb cap wait then cap else wait

-- One attempt to connect: its outcome, what other threads did meanwhile, the events that arrive on the
-- connection, each with what other threads did before it, what they did before the channel was closed, and
-- during the sleep.
pub record Attempt (S : Type 0) : Type 0 where
  pub connection : Result ConnectError PeerConnection
  pub connecting : S → S
  pub arrivals : List ((S → S) × PeerEvent)
  pub closing : S → S
  pub asleep : S → S

-- How the loop over the events of a connection is left.
pub data LoopExit (E : Type 0) : Type 0 where
  should_stop : LoopExit E
  reconnects : LoopExit E
  stopped : LoopExit E
  failed : E → LoopExit E

pub data Outcome (E : Type 0) : Type 0 where
  done : Outcome E
  max_retries_reached : Outcome E
  failed : E → Outcome E
  out_of_fuel : Outcome E

-- How a session ended, the handler's state, and the delays that were slept, in order.
pub record Ended (E S : Type 0) : Type 0 where
  pub outcome : Outcome E
  pub state : S
  pub slept : List ℕ

module _ {E S : Type 0} (h : PeerSessionHandler E S) where
  after_event : Result E SessionControl × S → (S → LoopExit E × S) → LoopExit E × S
  after_event (ok continue, s) more = more s
  after_event (ok reconnect, s) more = (LoopExit.reconnects, s)
  after_event (ok stop, s) more = (LoopExit.stopped, s)
  after_event (err e, s) more = (LoopExit.failed e, s)

  unfoldable pub event_loop :
      PeerConnection → List ((S → S) × PeerEvent) → (S → S) → S → LoopExit E × S
  unfolding after_event
  event_loop conn [] closing s =
      if h.should_stop s then (LoopExit.should_stop, s) else (LoopExit.reconnects, closing s)
  event_loop conn ((before, event) ∷ arrivals) closing s =
      let step =
        after_event (h.on_event conn event (before s)) (event_loop conn arrivals closing) in
      if h.should_stop s then (LoopExit.should_stop, s) else step

abbrev pub ended : {E S : Type 0} → Outcome E → S → Ended E S
ended o s = record { outcome = o; state = s; slept = [] }

abbrev pub after_sleep : {E S : Type 0} → ℕ → Ended E S → Ended E S
after_sleep d r = record r { slept = d ∷ r.slept }

module _ {E S : Type 0} (h : PeerSessionHandler E S) where
  -- What follows the loop over the events; `again` is the next round, and `delay` the sleep before it.
  after_loop : ℕ → (S → S) → (S → Ended E S) → LoopExit E × S → Ended E S
  after_loop delay asleep again (LoopExit.should_stop, s) =
      if h.should_stop s then ended done s else after_sleep delay (ended done (asleep s))
  after_loop delay asleep again (LoopExit.reconnects, s) =
      let next = after_sleep delay (again (asleep s)) in
      if h.should_stop s then ended done s else next
  after_loop delay asleep again (LoopExit.stopped, s) = ended done s
  after_loop delay asleep again (LoopExit.failed e, s) = ended (Outcome.failed e) s

  after_connect :
      ℕ → Attempt S → PeerConnection → (S → Ended E S) → Result E SessionControl × S → Ended E S
  unfolding after_loop
  after_connect delay a conn again (ok continue, s) =
      after_loop delay a.asleep again (event_loop h conn a.arrivals a.closing s)
  after_connect delay a conn again (ok reconnect, s) = after_sleep delay (again (a.asleep s))
  after_connect delay a conn again (ok stop, s) = ended done s
  after_connect delay a conn again (err e, s) = ended (Outcome.failed e) s

  pub try_peer : ℕ → Attempt S → (S → Ended E S) → S → Ended E S
  unfolding after_connect
  try_peer delay a again s = elim a.connection [
    | ok conn ↦ after_connect delay a conn again (h.on_connect conn (a.connecting s))
    | err e ↦ after_sleep delay (again (a.asleep (a.connecting s)))
  ]

-- The test at the head of the loop.
unfoldable pub exhausted : PeerSessionConfig → ℕ → Bool
exhausted c attempts = ltb 0 c.max_retries && leb c.max_retries attempts

module _ {E S : Type 0} (h : PeerSessionHandler E S) (c : PeerSessionConfig) where
  -- The rounds of `run`, one for each attempt that the network is asked for.
  unfoldable pub run_from : List (Attempt S) → ℕ → S → Ended E S
  unfolding exhausted try_peer
  run_from [] attempts s =
      if h.should_stop s
      then ended done s
      else if exhausted c attempts
      then ended max_retries_reached s
      else ended out_of_fuel s
  run_from (a ∷ network) attempts s =
      let attempts' = (attempts + 1) % u32_mod in
      let next = try_peer h (backoff_delay c attempts') a (run_from network attempts') s in
      if h.should_stop s
      then ended done s
      else if exhausted c attempts
      then ended max_retries_reached s
      else next

  unfoldable pub run : List (Attempt S) → S → Ended E S
  unfolding run_from
  run network s = run_from network 0 s
