-- ===== src/Shmem/Ring/Tests.antt =====
-- A ring of two slots, frames of four bytes, and the theorems at them.
use autotargeting.Base.{
  ℕ, ◌+◌, ◌-◌, ◌<◌, ◌≡◌, ◌≢◌, ◌↔◌, false, none, length, refl, ok, List, [], ◌∷◌, arith, ◌==◌,
}
use autotargeting.Shmem.Layout.{magic_word}
use autotargeting.Shmem.Ring.{
  SlotMeta, Ring, Bytes, FrameGuard, published, view_of, publish, write_frame, next_after,
  try_acquire,
}
use autotargeting.Shmem.Ring.Producer.{
  IsWindowed, publish_all, publish_all-held, publish-IsWindowed,
}
use autotargeting.Shmem.Ring.Log.{Log, logged, IsLogged, publish_all-IsLogged}
use autotargeting.Shmem.Ring.Consumer.{hold, IsNext, next_after-IsNext}
use autotargeting.Shmem.Ring.Reaper.{System, recover_stale_slots}
use autotargeting.Shmem.Ring.Sharing.{take_all, drop_all, recover_stale_slots-shared}

abbrev empty_slot : SlotMeta
empty_slot = record {
  ref_count = 0;
  frame_id = 0;
  ts_ns = 0;
  width = 0;
  height = 0;
  format = 0;
  holder_pid = 0;
  pixels = λ k. 0;
}

abbrev empty_ring : Ring
empty_ring = record {
  header = record {
    magic = magic_word;
    layout_version = 1;
    capacity = 2;
    width = 2;
    height = 2;
    format = 0;
    frame_size = 4;
    write_seq = 0;
    dropped_frames = 0;
    created_ns = 0;
    producer_pid = 42;
  };
  slots = λ j. empty_slot;
}

-- The bytes n, n + 1, n + 2 and n + 3.
abbrev frame_from : ℕ → Bytes
frame_from n = record { len = 4; at = λ k. n + k }

abbrev one_frame : Ring
unfolding publish
one_frame = (publish empty_ring (frame_from 10) 100).0

-- Process 7 has taken the first frame.
abbrev held_frame : Ring
unfolding one_frame
held_frame = hold 1 7 one_frame

abbrev system : System
system = record { own_pid = 9; now_ns = 5_000; exists_pid = λ p. p == 42 }

first_frame : (publish empty_ring (frame_from 10) 100).1 ≡ ok (published 1)
unfolding publish
first_frame = refl

empty-IsWindowed : IsWindowed empty_ring
empty-IsWindowed = record {
  positive = omega arith;
  current = λ n h k l. absurd (omega arith);
  past = λ j. omega arith;
}

one_frame-IsWindowed : IsWindowed one_frame
unfolding one_frame
one_frame-IsWindowed = publish-IsWindowed empty_ring (frame_from 10) 100 empty-IsWindowed

-- The wrong size.
abbrev short_frame : Bytes
short_frame = record { len = 3; at = λ k. k }

publish_all-held_example :
    (publish_all held_frame ((frame_from 20, 200) ∷ (frame_from 30, 300) ∷ [])).slots 1
    ≡ held_frame.slots 1
unfolding held_frame one_frame publish write_frame
publish_all-held_example =
    publish_all-held held_frame ((frame_from 20, 200) ∷ (frame_from 30, 300) ∷ []) 1 (omega arith)

-- Nothing is published yet, so that any log will do.
abbrev blank_log : Log
blank_log n = (frame_from 0, 0)

empty-IsLogged : IsLogged empty_ring blank_log
empty-IsLogged = record {
  windowed = empty-IsWindowed;
  timed = λ n h k l. absurd (omega arith);
  copied = λ n k h p l q. absurd (omega arith);
}

-- The short frame is refused and has no number.
abbrev three_offers : List (Bytes × ℕ)
three_offers = (frame_from 20, 200) ∷ (short_frame, 250) ∷ (frame_from 30, 300) ∷ []

log_of_three : (logged empty_ring blank_log three_offers) 2 ≡ (frame_from 30, 300)
unfolding logged publish write_frame
log_of_three = refl

publish_all-IsLogged_example :
    IsLogged (publish_all empty_ring three_offers) (logged empty_ring blank_log three_offers)
publish_all-IsLogged_example = publish_all-IsLogged empty_ring blank_log three_offers empty-IsLogged

next_after-IsNext_example : IsNext one_frame 0 7 (next_after one_frame 0 7)
unfolding one_frame publish write_frame
next_after-IsNext_example =
    next_after-IsNext one_frame 0 7 one_frame-IsWindowed (omega arith) (omega arith)

abbrev guard : FrameGuard
unfolding one_frame publish write_frame
guard = record { slot_idx = 1; view = view_of (one_frame.slots 1) }

-- Process 42, which lives, takes the slot of frame 1, and after it process 7, which drops its guard and
-- dies.
abbrev living : List ℕ
living = 42 ∷ []

abbrev dead : ℕ
dead = 7

abbrev one_left : Ring
unfolding one_frame publish write_frame
one_left = drop_all 1 (try_acquire (take_all one_frame 1 living) 1 none dead).0 guard

recover_stale_slots-shared_example :
    (((recover_stale_slots system one_left 1_000).0.slots 1).ref_count ≡ 0) ↔ (
      (length living ≡ 1)
      × (dead ≢ 0)
      × (dead ≢ system.own_pid)
      × (system.exists_pid dead ≡ false)
      × (1_000 < system.now_ns - 100))
unfolding one_frame publish write_frame
recover_stale_slots-shared_example =
    recover_stale_slots-shared system one_frame 1_000 1 dead 1 living guard (omega arith)
      (omega arith) (omega arith) (omega arith) refl

-- The slot that the living process holds is released.
living_reader_loses : ((recover_stale_slots system one_left 1_000).0.slots 1).ref_count ≡ 0
unfolding one_frame publish write_frame
living_reader_loses =
    (recover_stale_slots-shared system one_frame 1_000 1 dead 1 living guard (omega arith)
        (omega arith) (omega arith) (omega arith) refl).1
      (refl, (λ e. absurd (omega (arith, e))), (λ e. absurd (omega (arith, e))), refl, omega arith)
