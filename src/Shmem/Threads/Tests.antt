-- ===== src/Shmem/Threads/Tests.antt =====
-- One producer and one reader on a ring of two slots with frames of one byte.
use autotargeting.Base.{ℕ, ◌≤◌, ◌<◌, ◌≡◌, refl, false, none, some, arith, put, sum_over}
use autotargeting.Shmem.Layout.{magic_word}
use autotargeting.Shmem.Ring.{SlotMeta, Bytes}
use autotargeting.Shmem.Threads.{
  Threads, resting, away, offer, win, copy, copied, describe, name, unlock, announce, look, load,
  exchange, note, accept, view, read, Step, writes, reads, Reach, start, later,
}
use autotargeting.Shmem.Threads.Invariant.{holds, locks}
use autotargeting.Shmem.Threads.Safety.{readers_exclude_writer, no_torn_reads, log_stable}

abbrev empty_slot : SlotMeta
empty_slot = record {
  ref_count = 0;
  frame_id = 0;
  ts_ns = 0;
  width = 0;
  height = 0;
  format = 0;
  holder_pid = 0;
  pixels = λ k. 0;
}

abbrev frame : ℕ → Bytes
frame b = record { len = 1; at = λ k. b }

abbrev at_rest : Threads
at_rest = record {
  mem = record {
    header = record {
      magic = magic_word;
      layout_version = 1;
      capacity = 2;
      width = 1;
      height = 1;
      format = 0;
      frame_size = 1;
      write_seq = 0;
      dropped_frames = 0;
      created_ns = 0;
      producer_pid = 42;
    };
    slots = λ j. empty_slot;
  };
  log = λ id. (frame 0, 0);
  writer = resting;
  readers = λ i. away;
}

record Run (n : ℕ) : Type 0 where
  last : Threads
  open last use *
  reach : Reach n last

abbrev step : {n : ℕ} (r : Run n) {t : Threads} → Step n r.last t → Run n
step r {t} s = record { last = t; reach = later r.reach s }

abbrev begun : Run 1
begun = record { last = at_rest; reach = start ((λ j. (refl, refl)), refl, λ i. refl) }

-- The producer takes slot 1 for the byte 7 and copies it.
abbrev locked : Run 1
locked =
    step
      (step (step begun (writes (offer {d = frame 7} {ts = 100} {id = 1} refl refl)))
        (writes (win refl)))
      (writes (copy (omega arith)))

abbrev published : Run 1
published =
    step
      (step (step (step (step locked (writes copied)) (writes describe)) (writes name))
        (writes unlock))
      (writes announce)

-- The reader takes slot 1.
abbrev taken_slot : Run 1
taken_slot =
    step
      (step (step published (reads 0 (omega arith) (look {idx = 1} {e = some 1})))
        (reads 0 (omega arith) (load (omega arith))))
      (reads 0 (omega arith) (exchange refl))

abbrev read_byte : Run 1
read_byte =
    step
      (step
        (step (step taken_slot (reads 0 (omega arith) (note 9)))
          (reads 0 (omega arith) (accept refl)))
        (reads 0 (omega arith) view))
      (reads 0 (omega arith) (read {k = 0} (omega arith)))

readers_exclude_writer_example :
    (locks 2 1 read_byte.writer ≡ false)
    × ((read_byte.mem.slots 1).ref_count ≡ sum_over (holds 1) 1 read_byte.readers)
    × (0 < (read_byte.mem.slots 1).ref_count)
readers_exclude_writer_example =
    readers_exclude_writer 0 1 (omega arith) read_byte.reach (omega arith) refl

no_torn_reads_example : (7 ≡ (read_byte.log 1).0.at 0) × (100 ≡ (read_byte.log 1).1)
no_torn_reads_example =
    no_torn_reads 0 1 0 7 (record { frame_id = 1; ts_ns = 100; width = 1; height = 1; format = 0 })
      (put (λ _. none) 0 (some 7)) (omega arith) read_byte.reach (omega arith) refl (omega arith)
      refl

-- The producer takes the other slot for the next frame.
abbrev again : Run 1
again = step published (writes (offer {d = frame 8} {ts = 200} {id = 2} refl refl))

log_stable_example :
    let t : Threads = (step again (writes (win refl))).last in
    (t.log 1 ≡ again.log 1) × (1 ≤ t.mem.write_seq)
log_stable_example = log_stable 1 (omega arith) again.reach (writes (win refl)) (omega arith)
