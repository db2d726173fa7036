-- ===== src/Shmem/Threads/Safety.antt =====
-- What holds in every reachable state of one producer and `n` readers.
use autotargeting.Base.{
  ℕ, ◌≤◌, ◌<◌, ◌≡◌, ◌≢◌, refl, false, Option, some, sum_over, sum_over_zero, le-sum_over, arith,
}
use autotargeting.Shmem.Layout.{writer_lock}
use autotargeting.Shmem.Ring.{Ring, FrameView}
use autotargeting.Shmem.Threads.{
  Threads, Log, Writer, holding, WriterMove, offer, win, lose, drop_frame, copy, copied, describe,
  name, unlock, announce, Step, writes, reads, IsFresh, Reach, start, later,
}
use autotargeting.Shmem.Threads.Invariant.{
  holds, locks, Inv, WriterKnows, ReaderKnows, fills, Shows,
}
use autotargeting.Shmem.Threads.WriterMoves.{WriterMove-Inv}
use autotargeting.Shmem.Threads.ReaderMoves.{ReaderMove-Inv, move-frames}

fresh-Inv :
    {n : ℕ} (s : Threads) → n < writer_lock → IsFresh s → Inv n s.mem s.log s.writer s.readers
fresh-Inv {n} s few (slots, rests, absent) =
    let nobody : (j : ℕ) → sum_over (holds j) n s.readers ≡ 0 =
      λ j. sum_over_zero (holds j) n s.readers (λ i. ground (arith, absent i)) in
    record {
      few = few;
      counts = λ j. ground (arith, slots j, nobody j);
      excluded = λ j _. nobody j;
      ids = λ j. ground (arith, slots j);
      stored = λ j _ real. absurd (real (slots j).1);
      writer = ground arith;
      reader = λ i lt. ground (arith, absent i);
    }

pub Reach-Inv :
    {n : ℕ} {s : Threads} → n < writer_lock → Reach n s → Inv n s.mem s.log s.writer s.readers
Reach-Inv few (start {s} fresh) = fresh-Inv s few fresh
Reach-Inv few (later r (writes mv)) = WriterMove-Inv (Reach-Inv few r) mv
Reach-Inv few (later r (reads i lt mv)) = ReaderMove-Inv i (Reach-Inv few r) lt mv

-- In every reachable state, a slot that a reader has is not locked by the producer, and its count is
-- that of its readers. The readers are fewer than 2^32 - 1.
pub readers_exclude_writer :
    {n : ℕ} {s : Threads} (i j : ℕ)
    → n < writer_lock
    → Reach n s
    → i < n
    → holds j (s.readers i) ≡ 1
    → (locks s.mem.capacity j s.writer ≡ false)
      × ((s.mem.slots j).ref_count ≡ sum_over (holds j) n s.readers)
      × (0 < (s.mem.slots j).ref_count)
readers_exclude_writer {n} {s} i j few r lt held =
    let inv = Reach-Inv few r in
    ground (arith, inv.counts j, inv.excluded j, le-sum_over (holds j) n s.readers i lt)

fills_locked :
    (capacity j : ℕ) (w : Writer) → locks capacity j w ≡ false → fills capacity j w ≡ false
fills_locked capacity j w h = ground arith

seen_frame :
    (m : Ring) (l : Log) (j k b : ℕ) (v : FrameView) (seen : ℕ → Option ℕ)
    → ReaderKnows m (holding j v seen)
    → ((m.slots j).frame_id ≢ 0 → Shows m.frame_size (l (m.slots j).frame_id) (m.slots j))
    → v.frame_id ≢ 0
    → seen k ≡ some b
    → (b ≡ (l v.frame_id).0.at k) × (v.ts_ns ≡ (l v.frame_id).1)
seen_frame m l j k b v seen (named, timed, bytes) stored real looked =
    let shown = stored (ground arith) in
    (ground (arith, bytes k, shown.copied k), ground (arith, shown.timed))

-- No torn reads: whatever bytes a reader has seen through its guard, and in whatever order they were
-- read, they are those of one frame, the one with the number and the time of its view, as the producer
-- was given it; also while the producer publishes others. The readers are fewer than 2^32 - 1, and the
-- slot had a frame at all.
pub no_torn_reads :
    {n : ℕ} {s : Threads} (i j k b : ℕ) (v : FrameView) (seen : ℕ → Option ℕ)
    → n < writer_lock
    → Reach n s
    → i < n
    → s.readers i ≡ holding j v seen
    → v.frame_id ≢ 0
    → seen k ≡ some b
    → (b ≡ (s.log v.frame_id).0.at k) × (v.ts_ns ≡ (s.log v.frame_id).1)
no_torn_reads {n} {s} i j k b v seen few r lt at_slot real looked =
    let inv = Reach-Inv few r in
    let (unlocked, _, _) = readers_exclude_writer i j few r lt (ground (arith, at_slot)) in
    let knows = inv.reader i lt in
    seen_frame s.mem s.log j k b v seen (rw at_slot at knows)
      (inv.stored j (fills_locked s.mem.capacity j s.writer unlocked)) real looked

move-log :
    {m m' : Ring} {l l' : Log} {w w' : Writer}
    → WriterKnows m l w
    → WriterMove m l w m' l' w'
    → (id : ℕ) → id ≤ m.write_seq
    → (l' id ≡ l id) × (id ≤ m'.write_seq)
move-log knows (offer _ _) id le = (refl, le)
move-log knows (win _) id le = ground arith
move-log knows (lose _) id le = (refl, le)
move-log knows drop_frame id le = (refl, le)
move-log knows (copy _) id le = (refl, le)
move-log knows copied id le = (refl, le)
move-log knows describe id le = (refl, le)
move-log knows name id le = (refl, le)
move-log knows unlock id le = (refl, le)
move-log knows announce id le = (refl, omega arith)

-- A number that is published keeps its frame: no step changes it in the log.
pub log_stable :
    {n : ℕ} {s t : Threads} (id : ℕ)
    → n < writer_lock
    → Reach n s
    → Step n s t
    → id ≤ s.mem.write_seq
    → (t.log id ≡ s.log id) × (id ≤ t.mem.write_seq)
log_stable id few r (reads i lt mv) le = (refl, ground (arith, move-frames mv 0 0))
log_stable id few r (writes mv) le = move-log (Reach-Inv few r).writer mv id le
