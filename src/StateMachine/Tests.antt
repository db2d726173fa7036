-- ===== src/StateMachine/Tests.antt =====
-- Runs of the state machine, and its theorems at concrete requests.
use mathlib.Core.List.{Sublistᴰ}
use autotargeting.Base.{◌≡◌, refl, List, [], ◌∷◌, err}
use autotargeting.Types.{SystemState, idle, armed, scanning, target_selected, tracking}
use autotargeting.StateMachine.{invalid, new, try_transition, request_all}
use autotargeting.StateMachine.Diagram.{full}
use autotargeting.StateMachine.Requests.{on_target_needs_selection}

abbrev flight : List SystemState
flight = armed ∷ tracking ∷ scanning ∷ target_selected ∷ tracking ∷ []

flight_state : request_all (new idle) flight ≡ record { state = tracking; transition_count = 4 }
unfolding request_all try_transition new
flight_state = refl

no_shortcut : (try_transition (new idle) tracking).1 ≡ err (invalid idle tracking)
unfolding try_transition new
no_shortcut = refl

on_target_needs_selection_example : Sublistᴰ (armed ∷ scanning ∷ target_selected ∷ []) flight
unfolding request_all try_transition new
on_target_needs_selection_example = on_target_needs_selection flight full
