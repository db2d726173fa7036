-- ===== src/Recorder/Tests.antt =====
-- Tests of Recorder.antt, and the witnesses of its results.
use autotargeting.Base.{◌≡◌, refl, [], ◌∷◌, drop, arith}
use autotargeting.Shmem.Layout.{magic_word}
use autotargeting.Shmem.Ring.{
  SlotMeta, Ring, publish, next_after, next_rounds, write_frame, try_acquire,
}
use autotargeting.Recorder.{
  sequential, acquire, after_next, Attempt, read_all, begun, wait_first, ids_of, run_ids,
}
use autotargeting.Recorder.Ascent.{Ascends, run_ids-Ascends}

abbrev unused : SlotMeta
unused = record {
  ref_count = 0;
  frame_id = 0;
  ts_ns = 0;
  width = 0;
  height = 0;
  format = 0;
  holder_pid = 0;
  pixels = λ k. 0;
}

abbrev new_ring : Ring
new_ring = record {
  header = record {
    magic = magic_word;
    layout_version = 1;
    capacity = 2;
    width = 2;
    height = 2;
    format = 0;
    frame_size = 4;
    write_seq = 0;
    dropped_frames = 0;
    created_ns = 0;
    producer_pid = 42;
  };
  slots = λ j. unused;
}

abbrev publish_next : Ring → Ring
unfolding publish
publish_next r = (publish r (record { len = 4; at = λ k. k }) 100).0

-- The producer publishes a frame before each attempt.
abbrev one_each : Attempt
one_each = record { before = publish_next; meanwhile = λ (r : Ring). r }

-- Nothing happens.
abbrev quiet : Attempt
quiet = record { before = λ (r : Ring). r; meanwhile = λ (r : Ring). r }

-- `wait_first` takes the first of the two frames, and the loop begins again at 0.
second_read :
    ((acquire sequential quiet.meanwhile 7
      (begun (wait_first 7 (one_each ∷ quiet ∷ one_each ∷ []) (begun new_ring)).0.ring)).0
    ).last
    ≡ 1
unfolding acquire after_next next_after next_rounds publish_next write_frame try_acquire wait_first
second_read = refl

run_ids-Ascends_example : Ascends 0 (drop 1 (run_ids 7 (one_each ∷ quiet ∷ one_each ∷ []) new_ring))
unfolding wait_first acquire after_next next_after next_rounds publish_next write_frame try_acquire
run_ids-Ascends_example =
    run_ids-Ascends 7 (one_each ∷ quiet ∷ one_each ∷ []) new_ring (omega arith, (omega arith, tt))

first_twice : run_ids 7 (one_each ∷ quiet ∷ one_each ∷ []) new_ring ≡ 1 ∷ 1 ∷ 2 ∷ []
unfolding run_ids wait_first ids_of read_all acquire after_next next_after next_rounds publish_next
    write_frame try_acquire
first_twice = refl
