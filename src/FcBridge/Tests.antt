-- ===== src/FcBridge/Tests.antt =====
-- Tests of FcBridge.antt, and the witnesses of its results.
use Prim.Native.String.{String}
use autotargeting.Base.{◌+◌, ◌≡◌, refl, true, false, none, some, List, [], ◌∷◌, ◌++◌, length, arith}
use autotargeting.Floats.Milli.{Milli, milli_float}
use autotargeting.Fc.Mock
use autotargeting.Fc.Mock.{MockFcState, mock_fc}
use autotargeting.FcBridge.Dispatch.{CommandMsg, BridgeStats, drain}
use autotargeting.FcBridge.Loop.{
  BridgeConfig, FcEvent, BridgeState, Bus, Published, round, telemetry, announce, delivered,
  mode_to_u8,
}
use autotargeting.Fc.{is_heartbeat_stale}
use autotargeting.FcBridge.Commands.{drain_accounts}
use autotargeting.FcBridge.Edges.{Input, run, replay, status_of, run_replayed}

abbrev command : String → String → CommandMsg Milli
command cmd mode = record {
  target = "fc";
  cmd = cmd;
  args = record { number = λ (k : String). none; none_flag = none; mode = some mode };
}

abbrev as_is : String → String
as_is s = s

abbrev as_degrees : Milli → Milli
as_degrees x = x

abbrev as_float : Milli → Milli
as_float x = x

-- A mode, a command without its arguments, and one that is unknown.
abbrev three_commands : List (CommandMsg Milli)
three_commands = command "set_mode" "guided" ∷ command "set_roi" "" ∷ command "jump" "" ∷ []

abbrev on_line : MockFcState Milli
on_line = (mock_fc.connect Mock.new 1).0

abbrev no_counts : BridgeStats
no_counts = record { telemetry_published = 0; commands_handled = 0; command_errors = 0 }

drain_accounts_example :
    let r = drain as_float as_is three_commands (on_line, no_counts) in
    (length (r.0).commands + 0 ≡ length on_line.commands + (r.1).commands_handled)
    × ((r.1).commands_handled + (r.1).command_errors ≡ 0 + 0 + 3)
drain_accounts_example =
    drain_accounts as_float as_is three_commands on_line no_counts (omega arith)

abbrev bridge_config : BridgeConfig
bridge_config = record {
  telemetry_hz = 10;
  heartbeat_timeout_ms = 2000;
  status_interval = 1_000_000_000;
}

abbrev fresh : BridgeState
fresh = record {
  stats = no_counts;
  last_tele = 0;
  last_status = 0;
  announced = record { prev_alive = none; prev_armed = none; prev_mode = none };
  win_frames = 0;
  win_start = 0;
}

abbrev willing : Bus
willing = record { takes_sample = true; takes_event = λ (e : FcEvent). true; takes_status = true }

abbrev to_mode : Input (MockFcState Milli) Milli
to_mode = record {
  meanwhile = λ (s : MockFcState Milli). s;
  now = 100_000_000;
  bus = willing;
  commands = three_commands;
}

run_replayed_example :
    let r =
      round as_degrees as_float as_is bridge_config 100_000_000 willing three_commands
        (on_line, fresh) in
    replay ([] ++ (r.2).events) fresh.announced
    ≡ status_of as_degrees as_float as_is bridge_config r.0 100_000_000
unfolding run
run_replayed_example =
    run_replayed as_degrees as_float as_is bridge_config [] to_mode on_line fresh tt (λ e. refl)
      (omega arith)

-- The bus loses the events of one round and takes those of the next.
abbrev unwilling : Bus
unwilling = record willing { takes_event = λ (e : FcEvent). false }

abbrev after_loss : BridgeState × Published Milli
unfolding telemetry
after_loss =
    let b = (telemetry as_degrees bridge_config 100_000_000 unwilling on_line fresh).0 in
    telemetry as_degrees bridge_config 200_000_000 willing on_line b

never_repeated : (after_loss.1).events ≡ []
unfolding telemetry announce delivered mode_to_u8 is_heartbeat_stale Mock.heartbeat_status
    autotargeting.Types.is_stale Mock.connect Mock.new
never_repeated = refl
