-- ===== src/Watchdogs/History.antt =====
-- What auto-targeting/crates/commander/src/watchdogs.rs reports, by the calls that were made.
use autotargeting.Base.{
  ℕ, ◌<◌, ◌≡◌, ◌↔◌, ◌⊎◌, refl, ap, sym, ◌∙◌, true, false, Option, none, some, List, [], ◌∷◌, ◌++◌,
  arith, Bool-cases, inl, inr, if◌then◌else◌, lookup, insert, lookup-modify, lookup-insert,
  and_then, map_option,
}
use autotargeting.Types.{age_ms}
use autotargeting.Watchdogs.{
  WatchdogId, WatchdogAction, WatchdogConfig, WatchdogEntry, WatchdogRegistry, id_key, id_eq,
  id_eq_iff, as_millis, new, register, feed, fed, counted, expired_action, check_expired,
  note_expiry_processed,
}
use autotargeting.Watchdogs.Expiry.{
  Call, registers, feeds, notes, call, calls, calls-IsDistinct, lookup-check_expired, reported,
}

-- No call of these registers the watchdog.
abbrev pub IsUnregistered : WatchdogId → List Call → Type 0
IsUnregistered id [] = Unit
IsUnregistered id (registers k config at ∷ cs) = (id_eq k id ≡ false) × IsUnregistered id cs
IsUnregistered id (feeds k at ∷ cs) = IsUnregistered id cs
IsUnregistered id (notes k ∷ cs) = IsUnregistered id cs

-- The time of the last feed of the watchdog, and `at` where there is none.
abbrev pub last_feed : WatchdogId → ℕ → List Call → ℕ
last_feed id at [] = at
last_feed id at (registers k config t ∷ cs) = last_feed id at cs
last_feed id at (feeds k t ∷ cs) = last_feed id (if id_eq k id then t else at) cs
last_feed id at (notes k ∷ cs) = last_feed id at cs

calls-append :
    (inner : WatchdogRegistry) (cs ds : List Call)
    → calls inner (cs ++ ds) ≡ calls (calls inner cs) ds
unfolding calls
calls-append inner [] ds = refl
calls-append inner (c ∷ cs) ds = calls-append (call inner c) cs ds

-- An entry with this time and this configuration.
abbrev Heard : Option WatchdogEntry → ℕ → WatchdogConfig → Type 0
Heard found at config =
    (e : WatchdogEntry) × (found ≡ some e) × (e.last_fed ≡ at) × (e.config ≡ config)

fed-Heard :
    (found : Option WatchdogEntry) (at t : ℕ) (config : WatchdogConfig)
    → Heard found at config
    → Heard (map_option (fed t) found) t config
fed-Heard found at t config (e, here, time, kept) = (fed t e, rw here refl, refl, kept)

counted-Heard :
    (found : Option WatchdogEntry) (at : ℕ) (config : WatchdogConfig)
    → Heard found at config
    → Heard (map_option counted found) at config
counted-Heard found at config (e, here, time, kept) = (counted e, rw here refl, time, kept)

-- After calls that do not register the watchdog its entry has the time of the last feed.
calls-Heard :
    (id : WatchdogId) (inner : WatchdogRegistry) (cs : List Call) (at : ℕ) (config : WatchdogConfig)
    → Heard (lookup id inner) at config
    → IsUnregistered id cs
    → Heard (lookup id (calls inner cs)) (last_feed id at cs) config
unfolding calls call register feed note_expiry_processed
calls-Heard id inner [] at config h un = h
calls-Heard id inner (registers k c t ∷ cs) at config h (other, un) =
    calls-Heard id (register inner k c t) cs at config (rw (lookup-insert k id _ inner, other) h) un
calls-Heard id inner (feeds k t ∷ cs) at config h un = elim (Bool-cases (id_eq k id)) [
  | inl e ↦ rw e (
      calls-Heard id (feed inner k t) cs t config
        (rw (lookup-modify k id (fed t) inner, e) (fed-Heard (lookup id inner) at t config h)) un)
  | inr e ↦
      rw e (
        calls-Heard id (feed inner k t) cs at config (rw (lookup-modify k id (fed t) inner, e) h)
          un)
]
calls-Heard id inner (notes k ∷ cs) at config h un =
    calls-Heard id (note_expiry_processed inner k) cs at config
      (rw (lookup-modify k id counted inner) (elim (Bool-cases (id_eq k id)) [
        | inl e ↦ rw e (counted-Heard (lookup id inner) at config h)
        | inr e ↦ rw e h
      ]))
      un

-- A watchdog that is never registered has no entry.
unregistered_lem :
    (id : WatchdogId) (inner : WatchdogRegistry) (cs : List Call)
    → lookup id inner ≡ none
    → IsUnregistered id cs
    → lookup id (calls inner cs) ≡ none
unfolding calls call register feed note_expiry_processed
unregistered_lem id inner [] h un = h
unregistered_lem id inner (registers k c t ∷ cs) h (other, un) =
    unregistered_lem id (register inner k c t) cs (rw (lookup-insert k id _ inner, other) h) un
unregistered_lem id inner (feeds k t ∷ cs) h un =
    unregistered_lem id (feed inner k t) cs (ground (arith, lookup-modify k id (fed t) inner, h)) un
unregistered_lem id inner (notes k ∷ cs) h un =
    unregistered_lem id (note_expiry_processed inner k) cs
      (ground (arith, lookup-modify k id counted inner, h)) un

-- The calls up to the last registration of the watchdog, that one, and those after it.
abbrev pub LastRegistered :
    List Call → WatchdogId → List Call → WatchdogConfig → ℕ → List Call → Type 0
LastRegistered cs id before config at after =
    (cs ≡ before ++ (registers id config at ∷ after)) × IsUnregistered id after

last_registration :
    (id : WatchdogId) (cs : List Call)
    → IsUnregistered id cs
      ⊎ ((before : List Call) × (config : WatchdogConfig) × (at : ℕ) × (after : List Call)
          × LastRegistered cs id before config at after)
last_registration id [] = inl tt
last_registration id (c ∷ cs) = elim (last_registration id cs) [
  | inr (before, config, at, after, (split, un)) ↦
      inr (c ∷ before, config, at, after, (ap (λ (ds : List Call). c ∷ ds) split, un))
  | inl un ↦ first c un
]
  where
    first :
        (d : Call)
        → IsUnregistered id cs
        → IsUnregistered id (d ∷ cs)
          ⊎ ((before : List Call) × (config : WatchdogConfig) × (at : ℕ) × (after : List Call)
              × LastRegistered (d ∷ cs) id before config at after)
    first (registers k config at) un = elim (Bool-cases (id_eq k id)) [
      | inl e ↦ inr (
        [],
        config,
        at,
        cs,
        (ap (λ (j : WatchdogId). registers j config at ∷ cs) ((id_eq_iff k id).0 e), un),
      )
      | inr e ↦ inl (e, un)
    ]
    first (feeds k at) un = inl un
    first (notes k) un = inl un

-- The entry of a watchdog is that of its last registration, with the time of the last feed since.
registered-Heard :
    (cs : List Call) (id : WatchdogId) (before : List Call) (config : WatchdogConfig) (at : ℕ)
    (after : List Call)
    → LastRegistered cs id before config at after
    → Heard (lookup id (calls new cs)) (last_feed id at after) config
unfolding calls call register
registered-Heard cs id before config at after (split, un) =
    let inner = calls new before in
    let entry : WatchdogEntry = record {
      last_fed = at;
      config = config;
      expiry_count = 0;
      feed_count = 0;
    } in
    let same : id_eq id id ≡ true = (id_eq_iff id id).1 refl in
    let here : Heard (lookup id (insert id entry inner)) at config =
      (entry, rw (lookup-insert id id entry inner, same) refl, refl, refl) in
    rw (split, calls-append new before (registers id config at ∷ after))
      (calls-Heard id (register inner id config at) after at config here un)

unregistered_new :
    (id : WatchdogId) (cs : List Call) → IsUnregistered id cs → lookup id (calls new cs) ≡ none
unfolding new lookup
unregistered_new id cs un = unregistered_lem id [] cs refl un

report :
    (cs : List Call) (id : WatchdogId) (now : ℕ)
    → lookup id (check_expired (calls new cs) now)
      ≡ and_then (lookup id (calls new cs)) (expired_action now)
unfolding new
report cs id now = lookup-check_expired id (calls new cs) now (calls-IsDistinct [] cs tt)

-- After any calls `check_expired` reports an action for a watchdog exactly when the last call that
-- registered it gave it that action, and since that call or the last feed after it more milliseconds
-- have passed than the timeout that this call gave it.
pub check_expired_iff :
    (cs : List Call) (id : WatchdogId) (now : ℕ) (action : WatchdogAction)
    → (lookup id (check_expired (calls new cs) now) ≡ some action) ↔ (
        (before : List Call) × (config : WatchdogConfig) × (at : ℕ) × (after : List Call)
        × LastRegistered cs id before config at after
        × (config.on_expiry ≡ action)
        × (as_millis config.timeout < age_ms now (last_feed id at after)))
check_expired_iff cs id now action = (there, back)
  where
    there :
        lookup id (check_expired (calls new cs) now) ≡ some action
        → (before : List Call) × (config : WatchdogConfig) × (at : ℕ) × (after : List Call)
          × LastRegistered cs id before config at after
          × (config.on_expiry ≡ action)
          × (as_millis config.timeout < age_ms now (last_feed id at after))
    there h =
        let (e, found, acts, overdue) =
          (reported (lookup id (calls new cs)) now action).0 (sym (report cs id now) ∙ h) in
        elim (last_registration id cs) [
          | inl un ↦ absurd (ground (arith, found, unregistered_new id cs un))
          | inr (before, config, at, after, last) ↦
              let (d, here, time, kept) = registered-Heard cs id before config at after last in
              (
                before,
                config,
                at,
                after,
                last,
                ground (arith, found, here, kept, acts),
                ground (arith, found, here, kept, time, overdue.overdue),
              )
        ]

    back :
        ((before : List Call) × (config : WatchdogConfig) × (at : ℕ) × (after : List Call)
          × LastRegistered cs id before config at after
          × (config.on_expiry ≡ action)
          × (as_millis config.timeout < age_ms now (last_feed id at after)))
        → lookup id (check_expired (calls new cs) now) ≡ some action
    back (before, config, at, after, last, acts, late) =
        let (e, here, time, kept) = registered-Heard cs id before config at after last in
        report cs id now
        ∙ (reported (lookup id (calls new cs)) now action).1 (
          e,
          here,
          ground (arith, kept, acts),
          record { overdue = ground (arith, kept, time, late) },
        )
