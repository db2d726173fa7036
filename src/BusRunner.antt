-- ===== src/BusRunner.antt =====
-- auto-targeting/crates/commander/src/bus_runner.rs: the loop that runs the commander on messages of the
-- bus. One tick is a function of the messages that wait and of the readings of the clock.
pub mod Idle
mod Tests
use autotargeting.Base.{
  ℕ, zero, suc, ◌+◌, Bool, true, false, ◌&&◌, Option, none, some, List, [], ◌∷◌, Result, ok, err,
  if◌then◌else◌, ltb, leb, ◌==◌, u64,
}
use autotargeting.Floats.{Float}
use autotargeting.Detections.{BoundingBox, center}
use autotargeting.Fc.{FlightControllerAdapter}
use autotargeting.Watchdogs.{
  WatchdogId, video_loop, inference_loop, tracking_loop, command_loop, fc_heartbeat, WatchdogAction,
  feed,
}
use autotargeting.Commander.{Commander, Readings}
use autotargeting.Commander.Control.{
  select_target, feed_video_watchdog, process_watchdog_expiries, abort_internal, reset,
}
use autotargeting.Commander.Update
use autotargeting.Commander.Update.{update}

-- What the loop reads of a `TrackMsg`.
pub record TrackMsg : Type 0 where
  pub track_id : ℕ
  pub bbox : BoundingBox
  pub misses : ℕ

pub record BusConfig : Type 0 where
  pub frame_width : ℕ
  pub frame_height : ℕ
  pub max_track_misses : ℕ

pub record BusStats : Type 0 where
  pub tracks_received : ℕ
  pub telemetry_received : ℕ
  pub corrections_sent : ℕ
  pub corrections_suppressed : ℕ

-- The clock at the feeds before and after the control of a track, and in `update`.
pub record TrackReadings : Type 0 where
  pub before : ℕ
  pub updated : Readings
  pub after : ℕ

abbrev pub Arrival : Type 0
Arrival = TrackMsg × TrackReadings

-- What a tick meets.
pub record Tick : Type 0 where
  pub telemetry : Bool
  pub telemetry_at : ℕ
  pub tracks : List Arrival
  pub fed : ℕ
  pub checked : ℕ
  pub aborted : ℕ

abbrev pub track_budget : ℕ
track_budget = 32

abbrev pub is_target : ℕ → Option ℕ → Bool
is_target id none = false
is_target id (some active) = active == id

abbrev pub is_ok : {E A : Type 0} → Result E A → Bool
is_ok (ok _) = true
is_ok (err _) = false

-- The first expiry that asks for an abort ends the loop over them.
unfoldable pub asks_abort : List (WatchdogId × WatchdogAction) → Bool
asks_abort [] = false
asks_abort ((id, WatchdogAction.abort) ∷ es) = true
asks_abort ((id, WatchdogAction.degrade) ∷ es) = asks_abort es

abbrev pub count_answer : Bool → Bool → ℕ → BusStats → BusStats
count_answer false sent_now sent stats = stats
count_answer true true sent stats = record stats { corrections_sent = sent }
count_answer true false sent stats = record stats {
  corrections_suppressed = u64 (stats.corrections_suppressed + 1);
}

module _ {F : Type 0} ⦃f : Float F⦄ where
  -- The offset of the box from the middle, in halves of the frame.
  unfoldable pub offset_of : BusConfig → TrackMsg → F × F
  offset_of cfg track =
      let (cx, cy) = center track.bbox in
      let half_w = f.div (f.of_count cfg.frame_width) f.two in
      let half_h = f.div (f.of_count cfg.frame_height) f.two in
      (f.div (f.sub cx half_w) half_w, f.div (f.sub cy half_h) half_h)

module _ {S F : Type 0} ⦃f : Float F⦄ ⦃fc : FlightControllerAdapter S F⦄ where
  abbrev pub feed_one : WatchdogId → ℕ → Commander S F → Commander S F
  feed_one id now c = record c { watchdogs = feed c.watchdogs id now }

  -- Without a target the track is selected.
  unfoldable pub choose : TrackMsg → Commander S F → Commander S F
  unfolding select_target
  choose track c = elim c.active_target_id [
    | none ↦ (select_target c track.track_id).0
    | some _ ↦ c
  ]

  -- The control by a fresh track of the target.
  unfoldable pub steer :
      BusConfig → TrackMsg → Readings → Commander S F × BusStats → Commander S F × BusStats
  unfolding update offset_of
  steer cfg track r (c, stats) =
      let fresh =
        leb track.misses cfg.max_track_misses && is_target track.track_id c.active_target_id in
      let (c', result) = update c (some (offset_of cfg track)) r in
      let sent_now = ltb c.rate_limiter.sent_count c'.rate_limiter.sent_count in
      if fresh
      then (c', count_answer (is_ok result) sent_now c'.rate_limiter.sent_count stats)
      else (c, stats)

  unfoldable pub take_track :
      BusConfig → Arrival → Commander S F × BusStats → Commander S F × BusStats
  unfolding choose steer feed_video_watchdog
  take_track cfg (track, r) (c, stats) =
      let fed = feed_video_watchdog (feed_one command_loop r.before c) r.before in
      let counted = record stats { tracks_received = u64 (stats.tracks_received + 1) } in
      let (steered, stats') = steer cfg track r.updated (choose track fed, counted) in
      (
        feed_video_watchdog
            (feed_one inference_loop r.after (feed_one tracking_loop r.after steered)) r.after,
        stats',
      )

  -- The tracks that wait, as far as the budget goes; the others wait on.
  unfoldable pub drain :
      BusConfig
      → ℕ
      → List Arrival
      → Commander S F × BusStats
      → (Commander S F × BusStats) × List Arrival
  unfolding take_track
  drain cfg zero tracks state = (state, tracks)
  drain cfg (suc budget) [] state = (state, [])
  drain cfg (suc budget) (a ∷ tracks) state = drain cfg budget tracks (take_track cfg a state)

  unfoldable pub hear : Tick → Commander S F × BusStats → Commander S F × BusStats
  hear t (c, stats) =
      if t.telemetry
      then (
        feed_one fc_heartbeat t.telemetry_at c,
        record stats { telemetry_received = u64 (stats.telemetry_received + 1) },
      )
      else (c, stats)

  -- Watchdogs: an abort is called and reset, whatever they answer.
  unfoldable pub watch_over : Tick → Commander S F → Commander S F
  unfolding process_watchdog_expiries abort_internal reset feed_video_watchdog asks_abort
  watch_over t c =
      let fed = feed_video_watchdog (feed_one command_loop t.fed c) t.fed in
      let (checked, expired) = process_watchdog_expiries fed t.checked in
      if asks_abort expired then (reset (abort_internal checked t.aborted).0).0 else checked

  unfoldable pub tick :
      BusConfig → Tick → Commander S F × BusStats → (Commander S F × BusStats) × List Arrival
  unfolding hear drain watch_over
  tick cfg t state =
      let ((c, stats), waiting) = drain cfg track_budget t.tracks (hear t state) in
      ((watch_over t c, stats), waiting)
