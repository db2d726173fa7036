-- ===== src/Watchdogs/Expiry.antt =====
-- Which watchdogs `check_expired` reports, and for how long.
use autotargeting.Base.{
  ℕ, ◌*◌, ◌^◌, ◌≤◌, ◌<◌, ◌≡◌, ◌≢◌, ◌↔◌, refl, true, Option, none, some, List, [], ◌∷◌, arith,
  Bool-cases, inl, inr, sym, if◌then◌else◌, ltb, lookup, IsDistinct, insert-IsDistinct,
  modify-IsDistinct, lookup-modify, lookup-select, lookup-map_values, and_then, map_option,
}
use autotargeting.Types.{nanos_per_milli, age_ms}
use autotargeting.Watchdogs.{
  WatchdogId, WatchdogAction, WatchdogConfig, WatchdogEntry, WatchdogRegistry, WatchdogSnapshot,
  id_key, id_eq, id_eq_iff, as_millis, register, feed, fed, counted, expired_action, check_expired,
  snapshot, snapshot_entry, note_expiry_processed,
}

-- The calls that change a registry.
pub data Call : Type 0 where
  registers : WatchdogId → WatchdogConfig → ℕ → Call
  feeds : WatchdogId → ℕ → Call
  notes : WatchdogId → Call

unfoldable pub call : WatchdogRegistry → Call → WatchdogRegistry
call inner (registers id config now) = register inner id config now
call inner (feeds id now) = feed inner id now
call inner (notes id) = note_expiry_processed inner id

unfoldable pub calls : WatchdogRegistry → List Call → WatchdogRegistry
unfolding call
calls inner [] = inner
calls inner (c ∷ cs) = calls (call inner c) cs

call-IsDistinct :
    (inner : WatchdogRegistry) (c : Call) → IsDistinct inner → IsDistinct (call inner c)
unfolding call register feed note_expiry_processed
call-IsDistinct inner (registers id config now) h = insert-IsDistinct id _ inner h
call-IsDistinct inner (feeds id now) h = modify-IsDistinct id _ inner h
call-IsDistinct inner (notes id) h = modify-IsDistinct id _ inner h

pub calls-IsDistinct :
    (inner : WatchdogRegistry) (cs : List Call) → IsDistinct inner → IsDistinct (calls inner cs)
unfolding calls
calls-IsDistinct inner [] h = h
calls-IsDistinct inner (c ∷ cs) h = calls-IsDistinct (call inner c) cs (call-IsDistinct inner c h)

pub lookup-check_expired :
    (id : WatchdogId) (inner : WatchdogRegistry) (now : ℕ)
    → IsDistinct inner
    → lookup id (check_expired inner now) ≡ and_then (lookup id inner) (expired_action now)
unfolding check_expired
lookup-check_expired id inner now h = lookup-select id (expired_action now) inner h

-- A watchdog that was silent for more milliseconds than its timeout.
pub record IsOverdue (entry : WatchdogEntry) (now : ℕ) : Type 0 where
  pub overdue : as_millis entry.config.timeout < age_ms now entry.last_fed

pub reported :
    (found : Option WatchdogEntry) (now : ℕ) (action : WatchdogAction)
    → (and_then found (expired_action now) ≡ some action) ↔ (
        (entry : WatchdogEntry) × (found ≡ some entry)
        × (entry.config.on_expiry ≡ action)
        × IsOverdue entry now)
unfolding expired_action
reported none now action = (λ e. cc, λ t. cc (t.1))
reported (some entry) now action =
    (λ e. (entry, refl, ground arith, ground arith), λ t. ground (arith, t.1, t.2, t.3))

fed_report :
    (found : Option WatchdogEntry) (at now : ℕ)
    → and_then (map_option (fed at) found) (expired_action now)
      ≡ and_then found λ entry.
        if ltb (as_millis entry.config.timeout) (age_ms now at)
        then some entry.config.on_expiry
        else none
unfolding expired_action
fed_report none at now = refl
fed_report (some entry) at now = refl

-- Feeding a watchdog restarts its silence: from then on it is reported exactly when its timeout has
-- passed since the feed, if it is registered. The report of every other watchdog stays the same.
pub check_expired-feed :
    (inner : WatchdogRegistry) (id other : WatchdogId) (at now : ℕ)
    → IsDistinct inner
    → lookup other (check_expired (feed inner id at) now) ≡ (
        if id_eq id other
        then and_then (lookup id inner) (λ entry.
          if ltb (as_millis entry.config.timeout) (age_ms now at)
          then some entry.config.on_expiry
          else none)
        else lookup other (check_expired inner now))
unfolding feed expired_action
check_expired-feed inner id other at now h =
    rw (lookup-check_expired other (feed inner id at) now (modify-IsDistinct id _ inner h)) (
      rw (lookup-modify id other (fed at) inner) (elim (Bool-cases (id_eq id other)) [
        | inl same ↦ rw (same, (id_eq_iff id other).0 same) (fed_report (lookup other inner) at now)
        | inr diff ↦ rw diff (sym (lookup-check_expired other inner now h))
      ]))

-- An expired watchdog stays on the report with its action at every later time, also when the expiry
-- is noted, as long as nobody feeds it. The times are below 2^64 milliseconds.
pub check_expired-persists :
    (inner : WatchdogRegistry) (id : WatchdogId) (now later : ℕ) (action : WatchdogAction)
    → IsDistinct inner
    → now ≤ later
    → later < 2 ^ 64 * nanos_per_milli
    → lookup id (check_expired inner now) ≡ some action
    → lookup id (check_expired (note_expiry_processed inner id) later) ≡ some action
unfolding note_expiry_processed expired_action
check_expired-persists inner id now later action h le bound e = ground (
  arith,
  lookup-check_expired id inner now h,
  lookup-check_expired id (note_expiry_processed inner id) later (modify-IsDistinct id _ inner h),
  lookup-modify id id counted inner,
  id_eq_iff id id,
)

-- The snapshot marks a watchdog as expired exactly when `check_expired` reports it at that time.
pub snapshot-check_expired :
    (inner : WatchdogRegistry) (id : WatchdogId) (now : ℕ)
    → IsDistinct inner
    → map_option (λ (s : WatchdogSnapshot). s.expired) (lookup id (snapshot inner now)) ≡ some true
      ↔ (lookup id (check_expired inner now) ≢ none)
unfolding snapshot expired_action
snapshot-check_expired inner id now h =
    ground
      (arith, lookup-check_expired id inner now h, lookup-map_values id (snapshot_entry now) inner)
