-- ===== src/StateMachine/Requests.antt =====
-- What holds of the machine over every sequence of transition requests.
use mathlib.Core.List.{Sublistᴰ}
use mathlib.Core.List.Sublistᴰ
use autotargeting.Base.{◌≡◌, refl, ◌≢◌, ◌⊎◌, inl, inr, List, [], ◌∷◌, All, arith}
use autotargeting.Types.{SystemState, idle, armed, scanning, target_selected, rth, abort}
use autotargeting.StateMachine.{StateMachine, new, try_transition, request_all}
use autotargeting.StateMachine.Diagram

-- The requests that still have to come before a target can be followed.
abbrev ahead : SystemState → List SystemState
ahead idle = armed ∷ scanning ∷ target_selected ∷ []
ahead armed = scanning ∷ target_selected ∷ []
ahead scanning = target_selected ∷ []
ahead abort = armed ∷ scanning ∷ target_selected ∷ []
ahead rth = armed ∷ scanning ∷ target_selected ∷ []
ahead _ = []

ahead-panic : (s : SystemState) → Sublistᴰ (ahead s) (ahead abort)
ahead-panic idle = Sublistᴰ.refl _
ahead-panic armed = Sublistᴰ.cons (Sublistᴰ.refl _)
ahead-panic scanning = Sublistᴰ.cons (Sublistᴰ.cons (Sublistᴰ.refl _))
ahead-panic abort = Sublistᴰ.refl _
ahead-panic rth = Sublistᴰ.refl _
ahead-panic _ = Sublistᴰ.nil-sublist _

-- An edge goes through the first request that is ahead, or brings no request nearer.
ahead-edge :
    {s t : SystemState} → Diagram.◌⟶◌ s t → (ahead s ≡ t ∷ ahead t) ⊎ Sublistᴰ (ahead s) (ahead t)
ahead-edge Diagram.arm = inl refl
ahead-edge Diagram.scan = inl refl
ahead-edge Diagram.select = inl refl
ahead-edge (Diagram.lock _) = inr (Sublistᴰ.nil-sublist _)
ahead-edge Diagram.degrade = inr (Sublistᴰ.nil-sublist _)
ahead-edge Diagram.recover = inr (Sublistᴰ.nil-sublist _)
ahead-edge (Diagram.lose Diagram.full) = inr (Sublistᴰ.nil-sublist _)
ahead-edge (Diagram.lose Diagram.degraded) = inr (Sublistᴰ.nil-sublist _)
ahead-edge Diagram.reacquire = inr (Sublistᴰ.nil-sublist _)
ahead-edge Diagram.give_up = inr (Sublistᴰ.nil-sublist _)
ahead-edge Diagram.land = inr (Sublistᴰ.refl _)
ahead-edge Diagram.cancel = inr (Sublistᴰ.cons (Sublistᴰ.cons (Sublistᴰ.refl _)))
ahead-edge (Diagram.rescan Diagram.selected) = inr (Sublistᴰ.nil-sublist _)
ahead-edge (Diagram.rescan (Diagram.on_target Diagram.full)) = inr (Sublistᴰ.nil-sublist _)
ahead-edge (Diagram.rescan (Diagram.on_target Diagram.degraded)) = inr (Sublistᴰ.nil-sublist _)
ahead-edge (Diagram.rescan Diagram.out_of_sight) = inr (Sublistᴰ.nil-sublist _)
ahead-edge (Diagram.panic {s = s}) = inr (ahead-panic s)
ahead-edge Diagram.reset = inr (Sublistᴰ.refl _)

ahead-IsOnTarget : {s : SystemState} → Diagram.IsOnTarget s → Sublistᴰ (ahead s) []
ahead-IsOnTarget Diagram.full = Sublistᴰ.slnil
ahead-IsOnTarget Diagram.degraded = Sublistᴰ.slnil

ahead-step :
    (sm : StateMachine) (to : SystemState) (rest : List SystemState)
    → Sublistᴰ (ahead (try_transition sm to).0.state) rest
    → Sublistᴰ (ahead sm.state) (to ∷ rest)
ahead-step sm to rest later = elim (Diagram.try_transition_step sm to) [
  | inl same ↦ Sublistᴰ.cons (rw same at later)
  | inr (edge, moved) ↦
      let after : Sublistᴰ (ahead to) rest = rw moved at later in
      elim (ahead-edge edge) [
        | inl first ↦ rw first (Sublistᴰ.cons-cons refl after)
        | inr farther ↦ Sublistᴰ.cons (Sublistᴰ.trans farther after)
      ]
]

ahead-request_all :
    (sm : StateMachine) (requests : List SystemState)
    → Diagram.IsOnTarget (request_all sm requests).state
    → Sublistᴰ (ahead sm.state) requests
unfolding request_all
ahead-request_all sm [] h = ahead-IsOnTarget h
ahead-request_all sm (to ∷ rest) h =
    ahead-step sm to rest (ahead-request_all (try_transition sm to).0 rest h)

-- Whatever is requested of a new machine, it follows a target only after the requests for `armed`,
-- `scanning` and `target_selected` came in that order.
pub on_target_needs_selection :
    (requests : List SystemState)
    → Diagram.IsOnTarget (request_all (new idle) requests).state
    → Sublistᴰ (armed ∷ scanning ∷ target_selected ∷ []) requests
unfolding new
on_target_needs_selection requests h = ahead-request_all (new idle) requests h

ignored :
    (sm : StateMachine) (to : SystemState)
    → sm.state ≡ abort
    → to ≢ idle
    → (try_transition sm to).0 ≡ sm
unfolding try_transition
ignored sm to h other = ground arith

-- A machine in `abort` ignores every request but one for `idle`.
pub abort_absorbs :
    (sm : StateMachine) (requests : List SystemState)
    → sm.state ≡ abort
    → All (λ to. to ≢ idle) requests
    → request_all sm requests ≡ sm
unfolding request_all
abort_absorbs sm [] h others = refl
abort_absorbs sm (to ∷ rest) h others =
    rw (ignored sm to h others.0) (abort_absorbs sm rest h others.1)

-- From every state the requests `abort` and `idle` lead to `idle`.
pub abort-idle : (sm : StateMachine) → (request_all sm (abort ∷ idle ∷ [])).state ≡ idle
unfolding request_all try_transition
abort-idle sm = ground arith
