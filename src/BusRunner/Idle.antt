-- ===== src/BusRunner/Idle.antt =====
-- What becomes of the commander under the loop.
use autotargeting.Base.{
  ℕ, zero, suc, ◌≡◌, ◌⊎◌, refl, true, false, Option, none, some, List, [], ◌∷◌, arith, u64, ◌+◌,
}
use autotargeting.Floats.{Float}
use autotargeting.Types.{idle, rtl}
use autotargeting.Fc.{FlightControllerAdapter}
use autotargeting.StateMachine.{try_transition, is_transition_allowed}
use autotargeting.Watchdogs.{command_loop, check_expired}
use autotargeting.Commander.{Commander, Readings}
use autotargeting.Commander.Control.{feed_video_watchdog, process_watchdog_expiries, reset}
use autotargeting.Commander.Update.{update, follow, finish}
use autotargeting.Commander.Effects.{
  select_target_scanning, process_watchdog_expiries_state, abort_internal_rtl,
}
use autotargeting.BusRunner.{
  TrackMsg, BusConfig, BusStats, feed_one, Arrival, Tick, track_budget, offset_of, choose, steer,
  take_track, drain, hear, asks_abort, watch_over, tick,
}

module _ {S F : Type 0} ⦃f : Float F⦄ ⦃fc : FlightControllerAdapter S F⦄ where
  -- Idle, with the same adapter.
  abbrev IsSame : Commander S F → Commander S F → Type 0
  IsSame c c' = (c'.state.state ≡ idle) × (c'.fc ≡ c.fc)

  update_idle :
      (c : Commander S F) (o : Option (F × F)) (r : Readings)
      → c.state.state ≡ idle
      → IsSame c (update c o r).0
  unfolding update follow finish
  update_idle c none r h = ground (arith, h)
  update_idle c (some o) r h = ground (arith, h)

  choose_idle :
      (track : TrackMsg) (c : Commander S F) → c.state.state ≡ idle → IsSame c (choose track c)
  unfolding choose
  choose_idle track c h = ground (arith, h, select_target_scanning c track.track_id)

  steer_idle :
      (cfg : BusConfig) (track : TrackMsg) (r : Readings) (c : Commander S F) (stats : BusStats)
      → c.state.state ≡ idle
      → IsSame c (steer cfg track r (c, stats)).0
  unfolding steer
  steer_idle cfg track r c stats h =
      ground (arith, h, update_idle c (some (offset_of cfg track)) r h)

  watch_over_outcome :
      (t : Tick) (c : Commander S F)
      → let c' = watch_over t c in
        ((c'.state.state ≡ idle) × (c'.fc ≡ (fc.set_mode c.fc rtl).0))
        ⊎ ((c'.fc ≡ c.fc) × (c.state.state ≡ idle → c'.state.state ≡ idle))
  unfolding watch_over reset feed_video_watchdog try_transition is_transition_allowed
  watch_over_outcome t c =
      let fed = feed_video_watchdog (feed_one command_loop t.fed c) t.fed in
      let checked = (process_watchdog_expiries fed t.checked).0 in
      ground
        (arith, process_watchdog_expiries_state fed t.checked, abort_internal_rtl checked t.aborted)

  take_track_idle :
      (cfg : BusConfig) (a : Arrival) (c : Commander S F) (stats : BusStats)
      → c.state.state ≡ idle
      → IsSame c (take_track cfg a (c, stats)).0
  unfolding take_track feed_video_watchdog
  take_track_idle cfg (track, r) c stats h =
      let fed = feed_video_watchdog (feed_one command_loop r.before c) r.before in
      let counted = record stats { tracks_received = u64 (stats.tracks_received + 1) } in
      let chosen = choose track fed in
      let (still, same) = choose_idle track fed (ground (arith, h)) in
      ground (arith, still, same, steer_idle cfg track r.updated chosen counted still)

  drain_idle :
      (cfg : BusConfig) (budget : ℕ) (tracks : List Arrival) (c : Commander S F) (stats : BusStats)
      → c.state.state ≡ idle
      → IsSame c (drain cfg budget tracks (c, stats)).0.0
  unfolding drain
  drain_idle cfg zero tracks c stats h = (h, refl)
  drain_idle cfg (suc budget) [] c stats h = (h, refl)
  drain_idle cfg (suc budget) (a ∷ tracks) c stats h =
      let (c', stats') = take_track cfg a (c, stats) in
      let (still, same) = take_track_idle cfg a c stats h in
      ground (arith, same, drain_idle cfg budget tracks c' stats' still)

  tick_idle :
      (cfg : BusConfig) (t : Tick) (c : Commander S F) (stats : BusStats)
      → c.state.state ≡ idle
      → let c' = (tick cfg t (c, stats)).0.0 in
        (c'.state.state ≡ idle) × ((c'.fc ≡ c.fc) ⊎ (c'.fc ≡ (fc.set_mode c.fc rtl).0))
  unfolding tick hear
  tick_idle cfg t c stats h =
      let (heard, stats') = hear t (c, stats) in
      let (still, same) = drain_idle cfg track_budget t.tracks heard stats' (ground (arith, h)) in
      let drained = (drain cfg track_budget t.tracks (heard, stats')).0.0 in
      ground (arith, h, still, same, watch_over_outcome t drained)

  -- The loop, with what each tick meets.
  abbrev pub run : BusConfig → List Tick → Commander S F × BusStats → Commander S F × BusStats
  run cfg [] state = state
  run cfg (t ∷ ts) state = run cfg ts (tick cfg t state).0

  -- Once the commander is idle the loop leaves it idle for ever, whatever tracks, telemetry and
  -- expiries the ticks meet: nothing in it connects or scans again.
  pub run_idle :
      (cfg : BusConfig) (ts : List Tick) (c : Commander S F) (stats : BusStats)
      → c.state.state ≡ idle
      → (run cfg ts (c, stats)).0.state.state ≡ idle
  run_idle cfg [] c stats h = h
  run_idle cfg (t ∷ ts) c stats h =
      let ((c', stats'), _) = tick cfg t (c, stats) in
      run_idle cfg ts c' stats' (tick_idle cfg t c stats h).0

  -- A tick drains its tracks and then watches over what they made of the commander: if a watchdog that
  -- asks for an abort has expired by then, RTL is sent and the commander is idle at the end, whether the
  -- adapter accepted RTL or not; else the adapter is left alone.
  pub tick_aborts :
      (cfg : BusConfig) (t : Tick) (c : Commander S F) (stats : BusStats)
      → let (drained, stats') = (drain cfg track_budget t.tracks (hear t (c, stats))).0 in
        let fed = feed_video_watchdog (feed_one command_loop t.fed drained) t.fed in
        let expired = check_expired fed.watchdogs t.checked in
        let c' = (tick cfg t (c, stats)).0.0 in
        ((asks_abort expired ≡ true)
          × (c'.state.state ≡ idle)
          × (c'.fc ≡ (fc.set_mode drained.fc rtl).0))
        ⊎ ((asks_abort expired ≡ false) × (c'.fc ≡ drained.fc))
  unfolding tick watch_over reset feed_video_watchdog try_transition is_transition_allowed
  tick_aborts cfg t c stats =
      let drained = (drain cfg track_budget t.tracks (hear t (c, stats))).0.0 in
      let fed = feed_video_watchdog (feed_one command_loop t.fed drained) t.fed in
      let checked = (process_watchdog_expiries fed t.checked).0 in
      ground
        (arith, process_watchdog_expiries_state fed t.checked, abort_internal_rtl checked t.aborted)
