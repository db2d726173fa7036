-- ===== src/StateMachine.antt =====
-- auto-targeting/crates/commander/src/state_machine.rs: the commander's state machine. The logging
-- calls are left out.
pub mod Diagram
pub mod Requests
mod Tests
use autotargeting.Base.{
  ℕ, ◌+◌, Bool, true, false, not, List, [], ◌∷◌, Result, ok, err, Fallible, u64, if◌then◌else◌,
}
use autotargeting.Types.{
  SystemState, idle, armed, scanning, target_selected, tracking, tracking_degraded, lost, rth,
  abort, state_eq,
}

pub data StateTransitionError : Type 0 where
  invalid : (from to : SystemState) → StateTransitionError
  terminal_state : SystemState → StateTransitionError

pub record StateMachine : Type 0 where
  pub state : SystemState
  pub transition_count : ℕ  -- u64

unfoldable pub new : SystemState → StateMachine
new initial = record { state = initial; transition_count = 0 }

-- The table: the `match` of the source, with its last arm as the last clause.
unfoldable pub is_transition_allowed : SystemState → SystemState → Bool
is_transition_allowed idle armed = true
is_transition_allowed armed scanning = true
is_transition_allowed scanning target_selected = true
is_transition_allowed target_selected tracking = true
is_transition_allowed target_selected tracking_degraded = true
is_transition_allowed tracking tracking_degraded = true
is_transition_allowed tracking_degraded tracking = true
is_transition_allowed tracking lost = true
is_transition_allowed tracking_degraded lost = true
is_transition_allowed lost tracking = true
is_transition_allowed lost rth = true
is_transition_allowed rth idle = true
is_transition_allowed scanning idle = true
is_transition_allowed tracking scanning = true
is_transition_allowed tracking_degraded scanning = true
is_transition_allowed lost scanning = true
is_transition_allowed target_selected scanning = true
is_transition_allowed _ abort = true
is_transition_allowed abort idle = true
is_transition_allowed _ _ = false

unfoldable pub try_transition :
    StateMachine → SystemState → Fallible StateMachine StateTransitionError (Unit {0})
unfolding is_transition_allowed
try_transition sm to =
    if state_eq state to
    then (sm, ok tt)
    else if not (is_transition_allowed state to)
    then (sm, err (invalid state to))
    else (record { state = to; transition_count = u64 (transition_count + 1) }, ok tt)
  where
    open sm use {state, transition_count}

unfoldable pub force_transition : StateMachine → SystemState → StateMachine
force_transition sm to =
    if state_eq state to
    then sm
    else record { state = to; transition_count = u64 (transition_count + 1) }
  where
    open sm use {state, transition_count}

-- Requests one after another, their results dropped.
unfoldable pub request_all : StateMachine → List SystemState → StateMachine
request_all sm [] = sm
request_all sm (to ∷ rest) = request_all (try_transition sm to).0 rest
