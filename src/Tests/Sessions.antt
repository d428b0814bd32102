-- ===== src/Tests/Sessions.antt =====
-- Runs of src/peer/session.rs.
use codecrafters_bittorrent.Prelude.{
  ℕ, suc, ◌*◌, ◌≤◌, ◌<◌, ◌≡◌, ◌≢◌, refl, false, List, [], ◌∷◌, arith, length, ok, err,
}
use Prim.Native.Nat.{max}
use codecrafters_bittorrent.Peer.Connection.{PeerEvent}
use codecrafters_bittorrent.Peer.Connection.Handshake.{not_connected, established}
use codecrafters_bittorrent.Peer.Session.{
  PeerSessionHandler, PeerSessionConfig, Attempt, backoff_delay, continue, max_retries_reached,
  out_of_fuel, run, stop, done, ended, event_loop, exhausted,
}
use codecrafters_bittorrent.Peer.Session.Backoff.{backoff_delay_bounds, backoff_delay_doubles}
use codecrafters_bittorrent.Peer.Session.Retries.{delays, run-Retried}
use codecrafters_bittorrent.Peer.Session.Endings.{IsEnding, run_ends}

abbrev config : PeerSessionConfig
config = record { backoff_base = 1_000_000_000; backoff_cap = 3_000_000_000; max_retries = 2 }

backoff_delay_bounds_example :
    (1_000_000_000 ≤ backoff_delay config 3)
    × (backoff_delay config 3 ≤ max 3_000_000_000 1_000_000_000)
backoff_delay_bounds_example = backoff_delay_bounds config 3 (omega arith)

backoff_delay_doubles_example : backoff_delay config (suc 0) ≡ 2 * backoff_delay config 0
backoff_delay_doubles_example =
    backoff_delay_doubles config 0 (omega arith) (omega arith) (omega arith) below
  where
    below : backoff_delay config 1 < max 3_000_000_000 1_000_000_000
    below = unfold backoff_delay in omega arith

-- A handler that counts what happens.
abbrev counter : PeerSessionHandler (Unit {0}) ℕ
counter = record {
  on_connect = λ conn s. (ok continue, suc s);
  on_event = λ conn e s. (ok continue, suc s);
  should_stop = λ s. false;
}

abbrev refused : Attempt ℕ
refused = record {
  connection = err not_connected;
  connecting = λ s. s;
  arrivals = [];
  closing = λ s. s;
  asleep = λ s. suc s;
}

-- A peer that chokes, and closes.
abbrev accepted : Attempt ℕ
accepted = record {
  connection = ok (
      established (record { pstr = []; reserved = []; info_hash = []; peer_id = []; stream = [] }));
  connecting = λ s. s;
  arrivals = (λ s. s, PeerEvent.choke) ∷ [];
  closing = λ s. s;
  asleep = λ s. s;
}

abbrev network : List (Attempt ℕ)
network = refused ∷ accepted ∷ []

run-Retried_example :
    let r = run counter config network 1 in
    (r.outcome ≢ out_of_fuel)
    × (r.slept ≡ delays config 0 (length r.slept))
    × (length r.slept ≤ 2)
    × (r.outcome ≡ max_retries_reached → length r.slept ≡ 2)
run-Retried_example = run-Retried counter config network 1 (omega arith) (omega arith) (omega arith)

-- A handler that the first event stops.
abbrev stopped_once : PeerSessionHandler (Unit {0}) ℕ
stopped_once = record counter { on_event = λ conn e s. (ok stop, s) }

-- The state is the one that the second attempt's choke found.
stopped_done :
    run stopped_once config network 1 ≡ record (ended done 3) { slept = 2_000_000_000 ∷ [] }
unfolding run event_loop exhausted backoff_delay
stopped_done = refl

run_ends_example : IsEnding stopped_once config (run stopped_once config network 1)
run_ends_example = run_ends stopped_once config network 1 (omega arith) (omega arith) (omega arith)
