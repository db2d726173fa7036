-- ===== src/RateLimiter/Spacing.antt =====
-- How far apart the commands that the limiter lets through are.
use native.Mathlib.Nat.{suc-mul, mul-zero, zero-mul}
use autotargeting.Base.{
  zero, ℕ, suc, ◌+◌, ◌-◌, ◌*◌, ◌^◌, ◌≤◌, ◌<◌, ◌≡◌, Bool, true, Option, none, some, List, [], ◌∷◌,
  arith, length, All, Bool-cases, inl, inr, if◌then◌else◌, u64,
}
use autotargeting.RateLimiter.{CommandRateLimiter, force_send, try_send}

-- A caller tries to send, or forces a safety-critical command, at a time.
pub data Call : Type 0 where
  tries : ℕ → Call
  forces : ℕ → Call

abbrev pub time : Call → ℕ
time (tries t) = t
time (forces t) = t

-- The limiter after a call, and whether the command went out.
unfoldable pub call : CommandRateLimiter → Call → CommandRateLimiter × Bool
call rl (tries t) = try_send rl t
call rl (forces t) = (force_send rl t, true)

-- The calls that went out, in order.
unfoldable pub sent : CommandRateLimiter → List Call → List Call
unfolding call
sent rl [] = []
sent rl (c ∷ cs) =
    let (rl', out) = call rl c in let rest = sent rl' cs in if out then c ∷ rest else rest

unfoldable pub after : CommandRateLimiter → List Call → CommandRateLimiter
unfolding call
after rl [] = rl
after rl (c ∷ cs) = after (call rl c).0 cs

-- Every command that was not forced comes at least `d` after the one before it.
abbrev pub IsSpaced : ℕ → Option ℕ → List Call → Type 0
IsSpaced d last [] = Unit {0}
IsSpaced d none (c ∷ cs) = IsSpaced d (some (time c)) cs
IsSpaced d (some t) (tries u ∷ cs) = (d ≤ u - t) × IsSpaced d (some u) cs
IsSpaced d (some t) (forces u ∷ cs) = IsSpaced d (some u) cs

-- Whatever the calls are, each command that is let through comes at least the minimum interval after
-- the command before it, forced ones included.
pub sent-IsSpaced :
    (rl : CommandRateLimiter) (cs : List Call) → IsSpaced rl.min_interval rl.last_sent (sent rl cs)
unfolding sent try_send force_send
sent-IsSpaced rl [] = tt
sent-IsSpaced rl (tries t ∷ cs) = ground (arith, sent-IsSpaced (try_send rl t).0 cs)
sent-IsSpaced rl (forces t ∷ cs) = ground (arith, sent-IsSpaced (force_send rl t) cs)

-- The calls that try, at times in a window.
abbrev InWindow : ℕ → ℕ → Call → Type 0
InWindow start end (tries t) = (start ≤ t) × (t ≤ end)
InWindow start end (forces t) = ⊥

All-sent :
    (P : Call → Type 0) (rl : CommandRateLimiter) (cs : List Call) → All P cs → All P (sent rl cs)
unfolding sent
All-sent P rl [] h = tt
All-sent P rl (c ∷ cs) h = ground (arith, All-sent P (call rl c).0 cs h.1)

le-suc-mul : (n d : ℕ) {k : ℕ} → n * d + d ≤ k → suc n * d ≤ k
le-suc-mul n d h = omega (arith, suc-mul n d)

length-IsSpaced :
    (d start end t : ℕ) (cs : List Call)
    → IsSpaced d (some t) cs
    → All (InWindow start end) cs
    → t ≤ end
    → length cs * d ≤ end - t
length-IsSpaced zero start end t cs spaced within h = omega (arith, mul-zero (length cs))
length-IsSpaced (suc d) start end t [] spaced within h = omega (arith, zero-mul (suc d))
length-IsSpaced (suc d) start end t (tries u ∷ cs) spaced within h =
    le-suc-mul (length cs) (suc d)
      (omega (arith, length-IsSpaced (suc d) start end u cs spaced.1 within.1 within.0.1))
length-IsSpaced (suc d) start end t (forces u ∷ cs) spaced within h = absurd within.0

length-window :
    (d start end : ℕ) (last : Option ℕ) (cs : List Call)
    → IsSpaced d last cs
    → All (InWindow start end) cs
    → start ≤ end
    → length cs * d ≤ (end - start) + d
length-window d start end last [] spaced within h = omega (arith, zero-mul d)
length-window d start end none (tries u ∷ cs) spaced within h =
    le-suc-mul (length cs) d
      (omega (arith, length-IsSpaced d start end u cs spaced within.1 within.0.1))
length-window d start end (some t) (tries u ∷ cs) spaced within h =
    le-suc-mul (length cs) d
      (omega (arith, length-IsSpaced d start end u cs spaced.1 within.1 within.0.1))
length-window d start end last (forces u ∷ cs) spaced within h = absurd within.0

-- Of any calls to `try_send` in a window of time, at most one more is let through than whole
-- intervals fit into the window.
pub sent_rate :
    (rl : CommandRateLimiter) (start end : ℕ) (cs : List Call)
    → All (InWindow start end) cs
    → start ≤ end
    → length (sent rl cs) * rl.min_interval ≤ (end - start) + rl.min_interval
sent_rate rl start end cs within h =
    length-window rl.min_interval start end rl.last_sent (sent rl cs) (sent-IsSpaced rl cs)
      (All-sent (InWindow start end) rl cs within) h

length-sent-le : (rl : CommandRateLimiter) (cs : List Call) → length (sent rl cs) ≤ length cs
unfolding sent
length-sent-le rl [] = omega arith
length-sent-le rl (c ∷ cs) = ground (arith, length-sent-le (call rl c).0 cs)

-- The two counters account for every call, and the interval never changes.
pub after_counts :
    (rl : CommandRateLimiter) (cs : List Call)
    → rl.sent_count < 2 ^ 64
    → rl.dropped_count < 2 ^ 64
    → let rl' = after rl cs in
      let out = length (sent rl cs) in
      (rl'.sent_count ≡ u64 (rl.sent_count + out))
      × (rl'.dropped_count ≡ u64 (rl.dropped_count + (length cs - out)))
      × (rl'.min_interval ≡ rl.min_interval)
unfolding sent after call try_send force_send
after_counts rl [] hs hd = omega arith
after_counts rl (c ∷ cs) hs hd = elim (Bool-cases (call rl c).1) [
  | inl out ↦ ground (arith, after_counts (call rl c).0 cs, length-sent-le (call rl c).0 cs)
  | inr kept ↦ ground (arith, after_counts (call rl c).0 cs, length-sent-le (call rl c).0 cs)
]
