-- ===== src/RateLimiter/Tests.antt =====
-- Runs of the limiter, and its theorems at concrete calls.
use autotargeting.Base.{◌≡◌, refl, none, some, List, [], ◌∷◌}
use autotargeting.RateLimiter.{CommandRateLimiter, new, try_send}
use autotargeting.RateLimiter.Spacing.{Call, tries, sent, IsSpaced, sent-IsSpaced}

abbrev ten_hz : CommandRateLimiter
ten_hz = record { min_interval = 100_000_000; last_sent = none; dropped_count = 0; sent_count = 0 }

new-ten_hz : new 10 ≡ some ten_hz
unfolding new
new-ten_hz = refl

-- Tries at 0, 50, 100 and 120 ms.
abbrev burst : List Call
burst = tries 0 ∷ tries 50_000_000 ∷ tries 100_000_000 ∷ tries 120_000_000 ∷ []

sent-burst : sent ten_hz burst ≡ tries 0 ∷ tries 100_000_000 ∷ []
unfolding sent try_send
sent-burst = refl

sent-IsSpaced_example : IsSpaced 100_000_000 none (tries 0 ∷ tries 100_000_000 ∷ [])
unfolding sent try_send
sent-IsSpaced_example = sent-IsSpaced ten_hz burst
