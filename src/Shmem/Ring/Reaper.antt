-- ===== src/Shmem/Ring/Reaper.antt =====
-- auto-targeting/crates/shmem-buffer/src/ring.rs: the reaper.
use mathlib.Core.Path.{ap₂}
use native.Mathlib.Decide.{ℕ_discrete}
use autotargeting.Base.{
  ℕ, zero, suc, ◌+◌, ◌-◌, ◌≤◌, ◌<◌, ◌≡◌, ◌≢◌, refl, ◌∙◌, false, not, ◌&&◌, Bool, arith, ltb, ◌==◌,
  if◌then◌else◌,
}
use autotargeting.Shmem.Layout.{writer_lock}
use autotargeting.Shmem.Ring.{SlotMeta, Ring, set_ref_count}

-- What the reaper reads from the system: its own process, the clock, and whether `kill(pid, 0)` finds
-- a process.
pub record System : Type 0 where
  pub own_pid : ℕ
  pub now_ns : ℕ
  pub exists_pid : ℕ → Bool

-- `pid_alive` on Linux.
unfoldable pub pid_alive : System → ℕ → Bool
pid_alive sys pid = not (pid == 0) && sys.exists_pid pid

-- One round of the loop of `recover_stale_slots`: whether the slot is released. Nobody else runs, so
-- an exchange succeeds.
unfoldable pub is_cleared : System → ℕ → ℕ → SlotMeta → Bool
unfolding pid_alive
is_cleared sys producer_pid max_age_ns s =
    if s.ref_count == writer_lock
    then not (producer_pid == 0) && not (pid_alive sys producer_pid)
    else if s.ref_count == 1
    then not (s.holder_pid == 0)
      && not (s.holder_pid == sys.own_pid)
      && not (pid_alive sys s.holder_pid)
      && ltb max_age_ns (sys.now_ns - s.ts_ns)
    else false

-- One round of the loop, with the count of released slots.
abbrev pub recover_round : System → ℕ → ℕ → Ring × ℕ → Ring × ℕ
recover_round sys max_age_ns idx (r, freed) =
    if is_cleared sys r.producer_pid max_age_ns (r.slots idx)
    then (set_ref_count idx 0 r, freed + 1)
    else (r, freed)

-- The loop, with `left` slots to go from `idx` on.
unfoldable pub recover_from : System → ℕ → ℕ → ℕ → Ring × ℕ → Ring × ℕ
recover_from sys max_age_ns zero idx rf = rf
recover_from sys max_age_ns (suc left) idx rf =
    recover_from sys max_age_ns left (idx + 1) (recover_round sys max_age_ns idx rf)

unfoldable pub recover_stale_slots : System → Ring → ℕ → Ring × ℕ
recover_stale_slots sys r max_age_ns = recover_from sys max_age_ns r.capacity 0 (r, 0)

-- What one round makes of a slot.
abbrev pub swept : System → ℕ → ℕ → SlotMeta → SlotMeta
swept sys age producer s = if is_cleared sys producer age s then record s { ref_count = 0 } else s

module _ (sys : System) (age : ℕ) where
  round_other :
      (idx j : ℕ) (rf : Ring × ℕ)
      → j ≢ idx
      → let rf' = recover_round sys age idx rf in
        (rf'.0.slots j ≡ rf.0.slots j) × (rf'.0.producer_pid ≡ rf.0.producer_pid)
  round_other idx j (r, freed) h = ground arith

  round_self :
      (idx : ℕ) (rf : Ring × ℕ)
      → (recover_round sys age idx rf).0.slots idx
        ≡ swept sys age rf.0.producer_pid (rf.0.slots idx)
  round_self idx (r, freed) = ground arith

  recover_from-below :
      (left idx j : ℕ) (rf : Ring × ℕ)
      → j < idx
      → (recover_from sys age left idx rf).0.slots j ≡ rf.0.slots j
  unfolding recover_from
  recover_from-below zero idx j rf h = refl
  recover_from-below (suc left) idx j rf h =
      recover_from-below left (idx + 1) j (recover_round sys age idx rf) (omega arith)
      ∙ (round_other idx j rf (omega arith)).0

  -- Slot `j` after a loop over the slots from `idx` to `idx + left`.
  pub recover_from-slots :
      (left idx j : ℕ) (rf : Ring × ℕ)
      → idx ≤ j
      → j < idx + left
      → (recover_from sys age left idx rf).0.slots j
        ≡ swept sys age rf.0.producer_pid (rf.0.slots j)
  unfolding recover_from
  recover_from-slots zero idx j rf h k = absurd (omega arith)
  recover_from-slots (suc left) idx j rf h k = elim (ℕ_discrete j idx) [
    | yes here ↦ rw here (
        recover_from-below left (idx + 1) idx (recover_round sys age idx rf) (omega arith)
        ∙ round_self idx rf)
    | no later ↦
        let (same, producer) = round_other idx j rf later in
        recover_from-slots left (idx + 1) j (recover_round sys age idx rf) (omega arith)
          (omega arith)
        ∙ ap₂ (swept sys age) producer same
  ]
