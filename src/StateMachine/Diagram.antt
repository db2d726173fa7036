-- ===== src/StateMachine/Diagram.antt =====
-- The table of auto-targeting/crates/commander/src/state_machine.rs as a relation.
use autotargeting.Base.{◌≡◌, refl, ◌⊎◌, inl, inr, true, Bool-cases, arith}
use autotargeting.Types.{
  SystemState, idle, armed, scanning, target_selected, tracking, tracking_degraded, lost, rth,
  abort,
}
use autotargeting.StateMachine.{StateMachine, is_transition_allowed, try_transition}

-- The states in which a target is followed.
pub data IsOnTarget : SystemState → Type 0 where
  full : IsOnTarget tracking
  degraded : IsOnTarget tracking_degraded

-- The states from which the operator may restart the scan.
pub data MayRescan : SystemState → Type 0 where
  selected : MayRescan target_selected
  on_target : {s : SystemState} → IsOnTarget s → MayRescan s
  out_of_sight : MayRescan lost

infix 40 ◌⟶◌
pub data ◌⟶◌ : SystemState → SystemState → Type 0 where
  arm : idle ⟶ armed
  scan : armed ⟶ scanning
  select : scanning ⟶ target_selected
  lock : {s : SystemState} → IsOnTarget s → target_selected ⟶ s
  degrade : tracking ⟶ tracking_degraded
  recover : tracking_degraded ⟶ tracking
  lose : {s : SystemState} → IsOnTarget s → s ⟶ lost
  reacquire : lost ⟶ tracking
  give_up : lost ⟶ rth
  land : rth ⟶ idle
  cancel : scanning ⟶ idle
  rescan : {s : SystemState} → MayRescan s → s ⟶ scanning
  panic : {s : SystemState} → s ⟶ abort
  reset : abort ⟶ idle

ruleset edges = (
  arm, scan, select, lock, degrade, recover, lose, reacquire, give_up, land, cancel, rescan, panic,
  reset, full, degraded, selected, on_target, out_of_sight,
)

allowed-edge : (a b : SystemState) → is_transition_allowed a b ≡ true → a ⟶ b
unfolding is_transition_allowed
allowed-edge a b h = grind (arith, edges)

allowed_abort : (s : SystemState) → is_transition_allowed s abort ≡ true
unfolding is_transition_allowed
allowed_abort s = ground arith

edge-allowed : {a b : SystemState} → a ⟶ b → is_transition_allowed a b ≡ true
unfolding is_transition_allowed
edge-allowed arm = refl
edge-allowed scan = refl
edge-allowed select = refl
edge-allowed (lock full) = refl
edge-allowed (lock degraded) = refl
edge-allowed degrade = refl
edge-allowed recover = refl
edge-allowed (lose full) = refl
edge-allowed (lose degraded) = refl
edge-allowed reacquire = refl
edge-allowed give_up = refl
edge-allowed land = refl
edge-allowed cancel = refl
edge-allowed (rescan selected) = refl
edge-allowed (rescan (on_target full)) = refl
edge-allowed (rescan (on_target degraded)) = refl
edge-allowed (rescan out_of_sight) = refl
edge-allowed (panic {s = s}) = allowed_abort s
edge-allowed reset = refl

-- A request leaves the state alone or takes the edge to the requested state.
pub try_transition_step :
    (sm : StateMachine) (to : SystemState)
    → let after = (try_transition sm to).0.state in
      (after ≡ sm.state) ⊎ ((sm.state ⟶ to) × (after ≡ to))
unfolding try_transition
try_transition_step sm to = elim (Bool-cases (is_transition_allowed sm.state to)) [
  | inl e ↦ ground (arith, allowed-edge sm.state to e)
  | inr e ↦ ground arith
]
