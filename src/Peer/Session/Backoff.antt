-- ===== src/Peer/Session/Backoff.antt =====
-- The delays of src/peer/session.rs.
use Prim.Native.Nat.{max, zero-le}
use native.Mathlib.Nat.{pow-le-pow_right, pow-suc, mul-le-mul_left}
use codecrafters_bittorrent.Prelude.{ℕ, suc, ◌*◌, ◌^◌, ◌≤◌, ◌<◌, ◌≡◌, arith, min}
use codecrafters_bittorrent.Peer.Session.{PeerSessionConfig, backoff_delay, duration_max}

-- The delay before the cap.
abbrev raw : PeerSessionConfig → ℕ → ℕ
raw c attempts = c.backoff_base * 2 ^ min attempts 10

backoff_delay-eq :
    (c : PeerSessionConfig) (attempts : ℕ)
    → backoff_delay c attempts
      ≡ min (max c.backoff_cap c.backoff_base) (min (raw c attempts) duration_max)
unfolding backoff_delay
backoff_delay-eq c attempts = ground arith

raw_mono : (c : PeerSessionConfig) (m n : ℕ) → m ≤ n → raw c m ≤ raw c n
raw_mono c m n h =
    mul-le-mul_left c.backoff_base
      (pow-le-pow_right {n = 2} (omega arith) {i = min m 10} {j = min n 10} (omega arith))

raw_zero : (c : PeerSessionConfig) → raw c 0 ≡ c.backoff_base
raw_zero c = omega arith

raw-suc : (c : PeerSessionConfig) (n : ℕ) → n < 10 → raw c (suc n) ≡ 2 * raw c n
raw-suc c n h =
    let now : min n 10 ≡ n = omega arith in
    let then_ : min (suc n) 10 ≡ suc n = omega arith in rw (now, then_, pow-suc 2 n) (omega arith)

-- For a base of at most `Duration::MAX`, every delay is at least the base and at most the cap, or the
-- base where that is above the cap.
pub backoff_delay_bounds :
    (c : PeerSessionConfig) (attempts : ℕ)
    → c.backoff_base ≤ duration_max
    → (c.backoff_base ≤ backoff_delay c attempts)
      × (backoff_delay c attempts ≤ max c.backoff_cap c.backoff_base)
backoff_delay_bounds c attempts h =
    let least = raw_mono c 0 attempts zero-le in
    let first = raw_zero c in
    (omega (arith, backoff_delay-eq c attempts), omega (arith, backoff_delay-eq c attempts))

-- A later attempt waits no less than an earlier one.
pub backoff_delay_mono :
    (c : PeerSessionConfig) (m n : ℕ) → m ≤ n → backoff_delay c m ≤ backoff_delay c n
backoff_delay_mono c m n h =
    omega (arith, backoff_delay-eq c m, backoff_delay-eq c n, raw_mono c m n h)

-- For a base and a cap of at most `Duration::MAX`: until the cap is met, the delay doubles with each
-- attempt, up to the tenth.
pub backoff_delay_doubles :
    (c : PeerSessionConfig) (n : ℕ)
    → n < 10
    → c.backoff_cap ≤ duration_max
    → c.backoff_base ≤ duration_max
    → backoff_delay c (suc n) < max c.backoff_cap c.backoff_base
    → backoff_delay c (suc n) ≡ 2 * backoff_delay c n
backoff_delay_doubles c n h cap_fits base_fits below =
    omega (arith, backoff_delay-eq c n, backoff_delay-eq c (suc n), raw-suc c n h)
