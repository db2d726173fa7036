-- ===== src/Recorder/Ascent.antt =====
-- The frames that auto-targeting/crates/video-recorder/src/lib.rs reads in sequence.
use autotargeting.Base.{
  ℕ, zero, suc, ◌+◌, ◌-◌, ◌%◌, ◌^◌, ◌<◌, ◌≤◌, ◌≡◌, inl, inr, refl, none, some, List, [], ◌∷◌, ◌==◌,
  ltb, leb, if◌then◌else◌, Bool-cases, Option, drop, arith,
}
use autotargeting.Shmem.Layout.{writer_lock}
use autotargeting.Shmem.Ring.{
  SlotMeta, FrameGuard, view_of, on_slot, released, Ring, Acquired, got, busy, mismatch, NextStep,
  frame, up_to_date, too_far_behind, validate_taken, acquire_rounds, try_acquire, next_rounds,
  next_after, set_ref_count, taken, wanted,
}
use autotargeting.Recorder.{
  sequential, Reading, Taken, after_jump, after_next, acquire, Attempt, read_all, begun, wait_first,
  ids_of, run_ids,
}

-- A guard that was asked for a frame is on this frame.
abbrev IsOn : ℕ → Ring × Acquired → Type 0
IsOn want (r, got g) = g.view.frame_id ≡ want
IsOn want (r, busy) = Unit
IsOn want (r, mismatch actual) = Unit

checked-IsOn :
    (held given : Ring) (idx want : ℕ) (s : SlotMeta)
    → IsOn want (
        if s.frame_id == want
        then (held, got (record { slot_idx = idx; view = view_of s }))
        else (given, mismatch s.frame_id))
checked-IsOn held given idx want s = elim (Bool-cases (s.frame_id == want)) [
  | inl e ↦ rw e (ground arith)
  | inr e ↦ rw e tt
]

validate_taken-IsOn :
    (r : Ring) (idx want pid : ℕ) → IsOn want (validate_taken r idx (some want) pid)
unfolding validate_taken
validate_taken-IsOn r idx want pid =
    let held = on_slot idx (λ s. record s { holder_pid = pid }) r in
    checked-IsOn held (set_ref_count idx (released (held.slots idx).ref_count) held) idx want
      (held.slots idx)

acquire_rounds-IsOn :
    (n : ℕ) (r : Ring) (idx want pid : ℕ) → IsOn want (acquire_rounds n r idx (some want) pid)
unfolding acquire_rounds
acquire_rounds-IsOn zero r idx want pid = tt
acquire_rounds-IsOn (suc n) r idx want pid =
    elim (Bool-cases ((r.slots idx).ref_count == writer_lock)) [
      | inl e ↦ rw e (acquire_rounds-IsOn n r idx want pid)
      | inr e ↦
          rw e
            (validate_taken-IsOn (set_ref_count idx (taken (r.slots idx).ref_count) r) idx want pid)
    ]

try_acquire-IsOn : (r : Ring) (slot want pid : ℕ) → IsOn want (try_acquire r slot (some want) pid)
unfolding try_acquire
try_acquire-IsOn r slot want pid = acquire_rounds-IsOn 64 r (slot % r.capacity) want pid

-- What `next_after` answers about the frames: the one that is wanted, or one that is further on.
abbrev IsAhead : ℕ → Ring × NextStep → Type 0
IsAhead last (r, frame g) = g.view.frame_id ≡ wanted last
IsAhead last (r, up_to_date) = Unit
IsAhead last (r, too_far_behind l n) = last + 1 < 2 ^ 64 → last < n

attempted-IsAhead :
    (last : ℕ) (a : Ring × Acquired) (again : Ring × NextStep)
    → IsOn (wanted last) a
    → IsAhead last again
    → IsAhead last (elim a.1 [ got g ↦ (a.0, frame g) | other ↦ again ])
attempted-IsAhead last (r, got g) again on ahead = on
attempted-IsAhead last (r, busy) again on ahead = ahead
attempted-IsAhead last (r, mismatch actual) again on ahead = ahead

next_rounds-IsAhead : (n : ℕ) (r : Ring) (last pid : ℕ) → IsAhead last (next_rounds n r last pid)
unfolding next_rounds
next_rounds-IsAhead zero r last pid = tt
next_rounds-IsAhead (suc n) r last pid = elim (Bool-cases (r.write_seq == 0)) [
  | inl e ↦ rw e tt
  | inr e ↦ elim (Bool-cases (ltb r.write_seq (wanted last))) [
    | inl p ↦ rw (e, p) tt
    | inr p ↦ elim (Bool-cases (leb r.capacity (r.write_seq - wanted last))) [
      | inl q ↦ rw (e, p, q) (λ small. ground arith)
      | inr q ↦
          rw (e, p, q)
            (attempted-IsAhead last
              (try_acquire r (wanted last % r.capacity) (some (wanted last)) pid) _
              (try_acquire-IsOn r (wanted last % r.capacity) (wanted last) pid)
              (next_rounds-IsAhead n
                (try_acquire r (wanted last % r.capacity) (some (wanted last)) pid).0 last pid))
    ]
  ]
]

-- What an attempt leaves: nothing and a last frame that is no earlier, or a later frame.
abbrev Climbs : ℕ → Taken → Type 0
Climbs last (s, none) = last ≤ s.last
Climbs last (s, some g) = (last < s.last) × (g.view.frame_id ≡ s.last)

-- The numbers stay clear of the end of 64 bits, so that the saturation does not show.
abbrev IsSmall : ℕ → Type 0
IsSmall n = n + 1 < 2 ^ 64

after_jump-Climbs :
    (last : ℕ) (s : Reading) (step : Ring × NextStep)
    → IsSmall last
    → last < s.last
    → IsAhead s.last step
    → Climbs last (after_jump s step)
unfolding after_jump
after_jump-Climbs last s (r, frame g) small up h = (omega (arith, h), refl)
after_jump-Climbs last s (r, up_to_date) small up h = omega arith
after_jump-Climbs last s (r, too_far_behind l n) small up h = omega arith

next_after-IsAhead : (r : Ring) (last pid : ℕ) → IsAhead last (next_after r last pid)
unfolding next_after
next_after-IsAhead r last pid = next_rounds-IsAhead 256 r last pid

after_next-Climbs :
    (meanwhile : Ring → Ring) (pid : ℕ) (s : Reading) (step : Ring × NextStep)
    → IsSmall s.last
    → IsAhead s.last step
    → Climbs s.last (after_next meanwhile pid s step)
unfolding after_next
after_next-Climbs meanwhile pid s (r, frame g) small h = (omega (arith, h), refl)
after_next-Climbs meanwhile pid s (r, up_to_date) small h = omega arith
after_next-Climbs meanwhile pid s (r, too_far_behind l n) small h =
    after_jump-Climbs s.last _ (next_after (meanwhile r) n pid) small (h small)
      (next_after-IsAhead (meanwhile r) n pid)

acquire-Climbs :
    (meanwhile : Ring → Ring) (pid : ℕ) (s : Reading)
    → IsSmall s.last
    → Climbs s.last (acquire sequential meanwhile pid s)
unfolding acquire
acquire-Climbs meanwhile pid s small =
    after_next-Climbs meanwhile pid s (next_after s.ring s.last pid) small
      (next_after-IsAhead s.ring s.last pid)

-- Each number is greater than those before it.
abbrev pub Ascends : ℕ → List ℕ → Type 0
Ascends last [] = Unit
Ascends last (i ∷ is) = (last < i) × Ascends i is

Ascends-from : (last low : ℕ) (is : List ℕ) → low ≤ last → Ascends last is → Ascends low is
Ascends-from last low [] h up = tt
Ascends-from last low (i ∷ is) h up = (omega (arith, up.0), up.1)

-- Where the attempt leaves the last number, and no later number is at the end of 64 bits.
abbrev pub StaysSmall : ℕ → List Attempt → Reading → Type 0
StaysSmall pid [] s = Unit
StaysSmall pid (a ∷ rest) s =
    (s.last + 1 < 2 ^ 64)
    × StaysSmall pid rest
        (acquire sequential a.meanwhile pid (record s { ring = a.before s.ring })).0

taken-Ascends :
    (last : ℕ) (t : Taken) (later : List ℕ)
    → Climbs last t
    → Ascends (t.0).last later
    → Ascends last (elim t.1 [ none ↦ later | some g ↦ g.view.frame_id ∷ later ])
taken-Ascends last (s, none) later h up = Ascends-from s.last last later h up
taken-Ascends last (s, some g) later h up =
    (omega (arith, h.0, h.1), Ascends-from s.last _ later (omega (arith, h.1)) up)

read_all-Ascends :
    (pid : ℕ) (attempts : List Attempt) (s : Reading)
    → StaysSmall pid attempts s
    → Ascends s.last (read_all pid attempts s)
unfolding read_all
read_all-Ascends pid [] s h = tt
read_all-Ascends pid (a ∷ rest) s h =
    let start = record s { ring = a.before s.ring } in
    let t = acquire sequential a.meanwhile pid start in
    taken-Ascends s.last t (read_all pid rest t.0) (acquire-Climbs a.meanwhile pid start h.0)
      (read_all-Ascends pid rest t.0 h.1)

-- The numbers of the chain after the first frame stay below the end of 64 bits.
abbrev pub StaysSmallAfter : ℕ → Reading × Option (FrameGuard × List Attempt) → Type 0
StaysSmallAfter pid (s, none) = Unit
StaysSmallAfter pid (s, some (g, rest)) = StaysSmall pid rest (begun s.ring)

ids_of-Ascends :
    (pid : ℕ) (w : Reading × Option (FrameGuard × List Attempt))
    → StaysSmallAfter pid w
    → Ascends 0 (drop 1 (ids_of pid w))
unfolding ids_of
ids_of-Ascends pid (s, none) h = tt
ids_of-Ascends pid (s, some (g, rest)) h = read_all-Ascends pid rest (begun s.ring) h

-- Of the frames that a recorder in the sequential mode reads, from the one that `wait_first` waits for
-- on, those after the first have greater and greater numbers, none of them 0, whatever happens to the
-- ring between the attempts and between the two calls of an attempt; the numbers stay below the end of
-- 64 bits. Of the first and the second nothing is said: they may be one frame.
pub run_ids-Ascends :
    (pid : ℕ) (attempts : List Attempt) (r : Ring)
    → StaysSmallAfter pid (wait_first pid attempts (begun r))
    → Ascends 0 (drop 1 (run_ids pid attempts r))
unfolding run_ids
run_ids-Ascends pid attempts r h = ids_of-Ascends pid (wait_first pid attempts (begun r)) h
