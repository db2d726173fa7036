-- ===== src/FcBridge/Edges.antt =====
-- The events of auto-targeting/crates/fc-bridge/src/lib.rs, as a subscriber sees them.
use Prim.Native.String.{String}
use autotargeting.Base.{
  ℕ, ◌≡◌, refl, ap, sym, ◌∙◌, Bool, true, false, Option, none, some, List, [], ◌∷◌, ◌++◌, ◌==◌,
  if◌then◌else◌, Bool-cases, inl, inr, ◌≤◌, ◌-◌, leb, not, All, arith,
}
use autotargeting.Floats.{Float}
use autotargeting.Types.{FlightMode}
use autotargeting.Fc.{FlightControllerAdapter, is_heartbeat_stale}
use autotargeting.FcBridge.Dispatch.{CommandMsg, drain}
use autotargeting.FcBridge.Loop.{
  BridgeConfig, BridgeState, Bus, delivered, Published, FcEvent, link, armed, mode_change,
  Announced, announce, telemetry, telemetry_period, status, round, mode_to_u8, is_known,
  is_known_mode,
}

-- What a subscriber knows after an event.
abbrev pub noted : FcEvent → Announced → Announced
noted (link alive) p = record p { prev_alive = some alive }
noted (armed is_armed) p = record p { prev_armed = some is_armed }
noted (mode_change mode) p = record p { prev_mode = some mode }

unfoldable pub replay : List FcEvent → Announced → Announced
replay [] p = p
replay (e ∷ es) p = replay es (noted e p)

replay-append :
    (es fs : List FcEvent) (p : Announced) → replay (es ++ fs) p ≡ replay fs (replay es p)
unfolding replay
replay-append [] fs p = refl
replay-append (e ∷ es) fs p = replay-append es fs (noted e p)

-- The codes tell the modes apart.
mode_to_u8_injective : (m k : FlightMode) → mode_to_u8 m ≡ mode_to_u8 k → m ≡ k
unfolding mode_to_u8
mode_to_u8_injective m k e = ground arith

abbrev pub knowing : Option Bool → Option Bool → Option FlightMode → Announced
knowing alive is_armed mode = record { prev_alive = alive; prev_armed = is_armed; prev_mode = mode }

replay-link :
    (old : Option Bool) (r : Option Bool) (m : Option FlightMode) (now : Bool)
    → replay (if is_known old now then [] else link now ∷ []) (knowing old r m)
      ≡ knowing (some now) r m
unfolding replay
replay-link none r m now = refl
replay-link (some true) r m true = refl
replay-link (some true) r m false = refl
replay-link (some false) r m true = refl
replay-link (some false) r m false = refl

replay-armed :
    (a : Option Bool) (old : Option Bool) (m : Option FlightMode) (now : Bool)
    → replay (if is_known old now then [] else armed now ∷ []) (knowing a old m)
      ≡ knowing a (some now) m
unfolding replay
replay-armed a none m now = refl
replay-armed a (some true) m true = refl
replay-armed a (some true) m false = refl
replay-armed a (some false) m true = refl
replay-armed a (some false) m false = refl

replay-mode :
    (a r : Option Bool) (old : Option FlightMode) (now : FlightMode)
    → replay (if is_known_mode old now then [] else mode_change now ∷ []) (knowing a r old)
      ≡ knowing a r (some now)
unfolding replay
replay-mode a r none now = refl
replay-mode a r (some k) now = elim (Bool-cases (mode_to_u8 k == mode_to_u8 now)) [
  | inl e ↦
      rw e
        (ap (λ (x : FlightMode). knowing a r (some x)) (mode_to_u8_injective k now (ground arith)))
  | inr e ↦ rw e refl
]

replay-announce :
    (alive is_armed : Bool) (mode : FlightMode) (p : Announced)
    → replay (announce alive is_armed mode p).1 p ≡ knowing (some alive) (some is_armed) (some mode)
unfolding announce
replay-announce alive is_armed mode p =
    let a = if is_known p.prev_alive alive then [] else link alive ∷ [] in
    let r = if is_known p.prev_armed is_armed then [] else armed is_armed ∷ [] in
    let m = if is_known_mode p.prev_mode mode then [] else mode_change mode ∷ [] in
    rw
      (
        replay-append a (r ++ m) p,
        replay-link p.prev_alive p.prev_armed p.prev_mode alive,
        replay-append r m (knowing (some alive) p.prev_armed p.prev_mode),
        replay-armed (some alive) p.prev_armed p.prev_mode is_armed,
        replay-mode (some alive) (some is_armed) p.prev_mode mode,
      )
      refl

-- The bus takes every event.
abbrev pub TakesEvents : Bus → Type 0
TakesEvents bus = (e : FcEvent) → bus.takes_event e ≡ true

delivered-TakesEvents :
    (bus : Bus) (es : List FcEvent) → TakesEvents bus → delivered bus.takes_event es ≡ es
unfolding delivered
delivered-TakesEvents bus [] h = refl
delivered-TakesEvents bus (e ∷ es) h = rw (h e, delivered-TakesEvents bus es h) refl

status_keeps :
    {F : Type 0} (cfg : BridgeConfig) (now : ℕ) (bus : Bus) (b : BridgeState) (out : Published F)
    → let r = status cfg now bus (b, out) in
      ((r.0).announced ≡ b.announced) × ((r.1).events ≡ out.events)
unfolding status
status_keeps cfg now bus b out = elim (Bool-cases (leb cfg.status_interval (now - b.last_status))) [
  | inl e ↦ rw e (refl, refl)
  | inr e ↦ rw e (refl, refl)
]

module _ {S F : Type 0} ⦃f : Float F⦄ ⦃adapter : FlightControllerAdapter S F⦄
    (to_degrees narrow : F → F) (lower : String → String) (cfg : BridgeConfig) where
  -- The link, the arming and the mode of an adapter.
  abbrev pub status_of : S → ℕ → Announced
  status_of s now =
      let hb = adapter.heartbeat_status s now in
      knowing (some (not (is_heartbeat_stale F s now cfg.heartbeat_timeout_ms))) (some hb.armed)
        (some hb.mode)

  replay-telemetry :
      (now : ℕ) (bus : Bus) (s : S) (b : BridgeState)
      → TakesEvents bus
      → let r = telemetry to_degrees cfg now bus s b in
        (replay (r.1).events b.announced ≡ status_of s now) × ((r.0).announced ≡ status_of s now)
  unfolding telemetry announce
  replay-telemetry now bus s b h =
      let hb = adapter.heartbeat_status s now in
      let alive = not (is_heartbeat_stale F s now cfg.heartbeat_timeout_ms) in
      (
        rw (delivered-TakesEvents bus (announce alive hb.armed hb.mode b.announced).1 h)
            (replay-announce alive hb.armed hb.mode b.announced),
        refl,
      )

  -- The state between the commands and the telemetry.
  abbrev drained : List (CommandMsg F) → S → BridgeState → S × BridgeState
  drained commands s b =
      let d = drain narrow lower commands (s, b.stats) in (d.0, record b { stats = d.1 })

  round_due :
      (now : ℕ) (bus : Bus) (commands : List (CommandMsg F)) (s : S) (b : BridgeState)
      → TakesEvents bus
      → telemetry_period cfg ≤ now - b.last_tele
      → let r = round to_degrees narrow lower cfg now bus commands (s, b) in
        replay (r.2).events b.announced ≡ status_of r.0 now
  unfolding round
  round_due now bus commands s b h due =
      let d = drained commands s b in
      let t = telemetry to_degrees cfg now bus d.0 d.1 in
      let e : leb (telemetry_period cfg) (now - b.last_tele) ≡ true = ground (arith, due) in
      let keep = status_keeps cfg now bus t.0 t.1 in
      rw (e, keep.1) ((replay-telemetry now bus d.0 d.1 h).0)

  replay-round :
      (now : ℕ) (bus : Bus) (commands : List (CommandMsg F)) (s : S) (b : BridgeState)
      → TakesEvents bus
      → let r = round to_degrees narrow lower cfg now bus commands (s, b) in
        replay (r.2).events b.announced ≡ (r.1).announced
  unfolding round replay
  replay-round now bus commands s b h =
      let d = drained commands s b in
      let t = telemetry to_degrees cfg now bus d.0 d.1 in
      let idle : Published F = record { samples = []; events = []; statuses = [] } in
      let tele = replay-telemetry now bus d.0 d.1 h in
      elim (Bool-cases (leb (telemetry_period cfg) (now - b.last_tele))) [
        | inl e ↦
            let keep = status_keeps cfg now bus t.0 t.1 in
            rw (e, keep.0, keep.1) (tele.0 ∙ sym tele.1)
        | inr e ↦
            let keep = status_keeps {F = F} cfg now bus d.1 idle in rw (e, keep.0, keep.1) refl
      ]

-- A round of the loop: what happens to the adapter since the last one, the clock, what the bus takes,
-- and the commands that wait.
pub record Input (S F : Type 0) : Type 0 where
  pub meanwhile : S → S
  pub now : ℕ
  pub bus : Bus
  pub commands : List (CommandMsg F)

module _ {S F : Type 0} ⦃f : Float F⦄ ⦃adapter : FlightControllerAdapter S F⦄
    (to_degrees narrow : F → F) (lower : String → String) (cfg : BridgeConfig) where
  -- The rounds one after the other, with all the events.
  unfoldable pub run : List (Input S F) → S × BridgeState → (S × BridgeState) × List FcEvent
  run [] s = (s, [])
  run (x ∷ xs) (s, b) =
      let r = round to_degrees narrow lower cfg x.now x.bus x.commands (x.meanwhile s, b) in
      let rest = run xs (r.0, r.1) in (rest.0, (r.2).events ++ rest.1)

  replay-run :
      (xs : List (Input S F)) (s : S) (b : BridgeState)
      → All (λ x. TakesEvents x.bus) xs
      → replay (run xs (s, b)).1 b.announced ≡ ((run xs (s, b)).0.1).announced
  unfolding run replay
  replay-run [] s b h = refl
  replay-run (x ∷ xs) s b h =
      let r = round to_degrees narrow lower cfg x.now x.bus x.commands (x.meanwhile s, b) in
      let rest = run xs (r.0, r.1) in
      rw
        (
          replay-append (r.2).events rest.1 b.announced,
          replay-round to_degrees narrow lower cfg x.now x.bus x.commands (x.meanwhile s) b h.0,
        )
        (replay-run xs r.0 r.1 h.1)

  -- While the bus takes every event, a subscriber that notes them from the start on knows, after any
  -- rounds of the loop and a round in which the telemetry is due, whether the link of the adapter is
  -- alive, whether it is armed, and its mode, although an event is only published when something has
  -- changed.
  pub run_replayed :
      (xs : List (Input S F)) (last : Input S F) (s : S) (b : BridgeState)
      → All (λ x. TakesEvents x.bus) xs
      → TakesEvents last.bus
      → telemetry_period cfg ≤ last.now - ((run xs (s, b)).0.1).last_tele
      → let before = run xs (s, b) in
        let r =
          round to_degrees narrow lower cfg last.now last.bus last.commands
            (last.meanwhile (before.0).0, (before.0).1) in
        replay (before.1 ++ (r.2).events) b.announced
        ≡ status_of to_degrees narrow lower cfg r.0 last.now
  run_replayed xs last s b took takes due =
      let before = run xs (s, b) in
      let r =
        round to_degrees narrow lower cfg last.now last.bus last.commands
          (last.meanwhile (before.0).0, (before.0).1) in
      rw (replay-append before.1 (r.2).events b.announced, replay-run xs s b took)
        (round_due to_degrees narrow lower cfg last.now last.bus last.commands
          (last.meanwhile (before.0).0) (before.0).1 takes due)
