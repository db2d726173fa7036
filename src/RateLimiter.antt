-- ===== src/RateLimiter.antt =====
-- auto-targeting/crates/fc-adapter/src/rate_limiter.rs: the limiter of commands to the autopilot.
-- A reading of `Instant::now` is the argument `now`, in nanoseconds. The warning on every hundredth
-- drop is left out.
pub mod Spacing
mod Tests
use autotargeting.Base.{
  ℕ, zero, suc, ◌+◌, ◌-◌, ◌*◌, ◌/◌, ◌%◌, Bool, true, false, Option, none, some, u64, leb, ltb,
  if◌then◌else◌,
}

pub record CommandRateLimiter : Type 0 where
  pub min_interval : ℕ  -- nanoseconds
  pub last_sent : Option ℕ
  pub dropped_count : ℕ  -- u64
  pub sent_count : ℕ  -- u64

-- `Duration::from_secs_f64(1.0 / rate_hz)`: the nearest number of nanoseconds, a tie to the even
-- one. The error of the division is too small to cross a tie.
unfoldable pub nanos_per_cycle : ℕ → ℕ
nanos_per_cycle rate_hz =
    let q = 1_000_000_000 / rate_hz in
    let r = 2 * (1_000_000_000 % rate_hz) in
    if ltb r rate_hz then q else if ltb rate_hz r then q + 1 else q + q % 2

-- A rate of 0 fails the assertion.
unfoldable pub new : ℕ → Option CommandRateLimiter
unfolding nanos_per_cycle
new zero = none
new (suc r) = some (record {
  min_interval = nanos_per_cycle (suc r);
  last_sent = none;
  dropped_count = 0;
  sent_count = 0;
})

-- `last_sent = Some(now); sent_count += 1`.
unfoldable pub force_send : CommandRateLimiter → ℕ → CommandRateLimiter
force_send rl now = record rl { last_sent = some now; sent_count = u64 (rl.sent_count + 1) }

abbrev drop_one : CommandRateLimiter → CommandRateLimiter
drop_one rl = record rl { dropped_count = u64 (rl.dropped_count + 1) }

-- `now.duration_since(last)` is 0 where `last` is later.
unfoldable pub try_send : CommandRateLimiter → ℕ → CommandRateLimiter × Bool
unfolding force_send
try_send rl now = elim rl.last_sent [
  | none ↦ (force_send rl now, true)
  | some last ↦
      if leb rl.min_interval (now - last) then (force_send rl now, true) else (drop_one rl, false)
]
