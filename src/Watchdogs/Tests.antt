-- ===== src/Watchdogs/Tests.antt =====
-- Runs of the registry, and its theorems at concrete registries.
use autotargeting.Base.{
  ℕ, ◌<◌, ◌≡◌, ◌↔◌, refl, some, none, List, [], ◌∷◌, lookup, select, modify, insert,
}
use autotargeting.Watchdogs.{
  tracking_loop, command_loop, degrade, abort, WatchdogConfig, as_millis, id_key, from_millis, new,
  register, feed, check_expired,
}
use autotargeting.Watchdogs.Expiry.{Call, registers, feeds, calls}
use autotargeting.Watchdogs.History.{LastRegistered, last_feed, check_expired_iff}
use autotargeting.Types.{age_ms}

-- Two loops registered at 0 ms; the tracking loop is fed at 40 ms.
abbrev started : List Call
started =
    registers tracking_loop (record { timeout = from_millis 50; on_expiry = degrade }) 0
    ∷ registers command_loop (record { timeout = from_millis 100; on_expiry = abort }) 0
    ∷ feeds tracking_loop (from_millis 40)
    ∷ []

at_95 : check_expired (calls new started) (from_millis 95) ≡ (tracking_loop, degrade) ∷ []
unfolding check_expired calls register feed new select modify insert lookup
at_95 = refl

at_100 : lookup command_loop (check_expired (calls new started) (from_millis 100)) ≡ none
unfolding check_expired calls register feed new select modify insert lookup
at_100 = refl

check_expired_iff_example :
    (lookup tracking_loop (check_expired (calls new started) (from_millis 95)) ≡ some degrade) ↔ (
      (before : List Call) × (config : WatchdogConfig) × (at : ℕ) × (after : List Call)
      × LastRegistered started tracking_loop before config at after
      × (config.on_expiry ≡ degrade)
      × (as_millis config.timeout < age_ms (from_millis 95) (last_feed tracking_loop at after)))
check_expired_iff_example = check_expired_iff started tracking_loop (from_millis 95) degrade

-- The feed at 40 ms counts, not the registration.
last_feed_40 :
    last_feed tracking_loop 0 (
      registers command_loop (record { timeout = from_millis 100; on_expiry = abort }) 0
      ∷ feeds tracking_loop (from_millis 40)
      ∷ [])
    ≡ from_millis 40
last_feed_40 = refl
