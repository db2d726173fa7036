-- ===== src/Shmem/Threads/WriterMoves.antt =====
-- The producer's steps keep the invariant.
use autotargeting.Base.{
  ℕ, ◌≤◌, ◌<◌, ◌≡◌, ◌≢◌, ◌⊎◌, false, if◌then◌else◌, sum_over, le-sum_over, arith,
}
use autotargeting.Shmem.Layout.{writer_lock}
use autotargeting.Shmem.Ring.{Ring}
use autotargeting.Shmem.Threads.{
  Log, Writer, Reader, away, looking, trying, noting, checking, viewing, returning, holding,
  WriterMove, offer, win, lose, drop_frame, copy, copied, describe, name, unlock, announce,
}
use autotargeting.Shmem.Threads.Invariant.{
  holds, locks, fills, newest, WriterKnows, ReaderKnows, Inv,
}

module _ {n : ℕ} {m : Ring} {l : Log} {readers : ℕ → Reader} where
  move-counts :
      {w w' : Writer} {m' : Ring} {l' : Log}
      → Inv n m l w readers
      → WriterMove m l w m' l' w'
      → (j : ℕ)
      → ((m'.slots j).ref_count
          ≡ (if locks m'.capacity j w' then writer_lock else sum_over (holds j) n readers))
        × ((locks m'.capacity j w' ≡ false) ⊎ (sum_over (holds j) n readers ≡ 0))
  move-counts inv (offer _ _) j = ground (arith, inv.counts j, inv.excluded j)
  move-counts inv (win free) j = ground (arith, free, inv.counts j, inv.excluded j)
  move-counts inv (lose _) j = ground (arith, inv.counts j, inv.excluded j)
  move-counts inv drop_frame j = ground (arith, inv.counts j, inv.excluded j)
  move-counts inv (copy _) j = ground (arith, inv.counts j, inv.excluded j)
  move-counts inv copied j = ground (arith, inv.counts j, inv.excluded j)
  move-counts inv describe j = ground (arith, inv.counts j, inv.excluded j)
  move-counts inv name j = ground (arith, inv.counts j, inv.excluded j)
  move-counts inv unlock j = ground (arith, inv.counts j, inv.excluded j)
  move-counts inv announce j = ground (arith, inv.counts j, inv.excluded j)

  move-ids :
      {w w' : Writer} {m' : Ring} {l' : Log}
      → Inv n m l w readers
      → WriterMove m l w m' l' w'
      → (j : ℕ) → (m'.slots j).frame_id ≤ newest m'.write_seq w'
  move-ids inv (offer size next) j = ground (arith, inv.ids j, inv.writer)
  move-ids inv (win free) j = ground (arith, inv.ids j, inv.writer)
  move-ids inv (lose _) j = ground (arith, inv.ids j, inv.writer)
  move-ids inv drop_frame j = ground (arith, inv.ids j, inv.writer)
  move-ids inv (copy lt) j = ground (arith, inv.ids j, inv.writer)
  move-ids inv copied j = ground (arith, inv.ids j, inv.writer)
  move-ids inv describe j = ground (arith, inv.ids j, inv.writer)
  move-ids inv name j = ground (arith, inv.ids j, inv.writer)
  move-ids inv unlock j = ground (arith, inv.ids j, inv.writer)
  move-ids inv announce j = ground (arith, inv.ids j, inv.writer)

  stored_timed :
      {w : Writer} (inv : Inv n m l w readers) (j : ℕ)
      → fills m.capacity j w ≡ false
      → (m.slots j).frame_id ≢ 0
      → (m.slots j).ts_ns ≡ (l (m.slots j).frame_id).1
  stored_timed inv j clear real = (inv.stored j clear real).timed

  stored_copied :
      {w : Writer} (inv : Inv n m l w readers) (j k : ℕ)
      → fills m.capacity j w ≡ false
      → (m.slots j).frame_id ≢ 0
      → k < m.frame_size
      → (m.slots j).pixels k ≡ (l (m.slots j).frame_id).0.at k
  stored_copied inv j k clear real lt = (inv.stored j clear real).copied k lt

  move-timed :
      {w w' : Writer} {m' : Ring} {l' : Log}
      → Inv n m l w readers
      → WriterMove m l w m' l' w'
      → (j : ℕ) → fills m'.capacity j w' ≡ false
      → (m'.slots j).frame_id ≢ 0
      → (m'.slots j).ts_ns ≡ (l' (m'.slots j).frame_id).1
  move-timed inv (offer size next) j clear real =
      ground (arith, inv.writer, inv.ids j, stored_timed inv j)
  move-timed inv (win free) j clear real = ground (arith, inv.writer, inv.ids j, stored_timed inv j)
  move-timed inv (lose _) j clear real = ground (arith, inv.writer, inv.ids j, stored_timed inv j)
  move-timed inv drop_frame j clear real = ground (arith, inv.writer, inv.ids j, stored_timed inv j)
  move-timed inv (copy lt) j clear real = ground (arith, inv.writer, inv.ids j, stored_timed inv j)
  move-timed inv copied j clear real = ground (arith, inv.writer, inv.ids j, stored_timed inv j)
  move-timed inv describe j clear real = ground (arith, inv.writer, inv.ids j, stored_timed inv j)
  move-timed inv name j clear real = ground (arith, inv.writer, inv.ids j, stored_timed inv j)
  move-timed inv unlock j clear real = ground (arith, inv.writer, inv.ids j, stored_timed inv j)
  move-timed inv announce j clear real = ground (arith, inv.writer, inv.ids j, stored_timed inv j)

  move-copied :
      {w w' : Writer} {m' : Ring} {l' : Log}
      → Inv n m l w readers
      → WriterMove m l w m' l' w'
      → (j k : ℕ) → fills m'.capacity j w' ≡ false
      → (m'.slots j).frame_id ≢ 0
      → k < m'.frame_size
      → (m'.slots j).pixels k ≡ (l' (m'.slots j).frame_id).0.at k
  move-copied inv (offer size next) j k clear real small =
      ground (arith, inv.writer, inv.ids j, stored_copied inv j k)
  move-copied inv (win free) j k clear real small =
      ground (arith, inv.writer, inv.ids j, stored_copied inv j k)
  move-copied inv (lose _) j k clear real small =
      ground (arith, inv.writer, inv.ids j, stored_copied inv j k)
  move-copied inv drop_frame j k clear real small =
      ground (arith, inv.writer, inv.ids j, stored_copied inv j k)
  move-copied inv (copy lt) j k clear real small =
      ground (arith, inv.writer, inv.ids j, stored_copied inv j k)
  move-copied inv copied j k clear real small =
      ground (arith, inv.writer, inv.ids j, stored_copied inv j k)
  move-copied inv describe j k clear real small =
      ground (arith, inv.writer, inv.ids j, stored_copied inv j k)
  move-copied inv name j k clear real small =
      let (next, logged, filled, timed) = inv.writer in
      ground (arith, next, logged, filled k small, inv.ids j, stored_copied inv j k)
  move-copied inv unlock j k clear real small =
      ground (arith, inv.writer, inv.ids j, stored_copied inv j k)
  move-copied inv announce j k clear real small =
      ground (arith, inv.writer, inv.ids j, stored_copied inv j k)

  move-writer :
      {w w' : Writer} {m' : Ring} {l' : Log}
      → Inv n m l w readers
      → WriterMove m l w m' l' w'
      → WriterKnows m' l' w'
  move-writer inv (offer size next) = ground (arith, inv.writer)
  move-writer inv (win free) = ground (arith, inv.writer)
  move-writer inv (lose _) = ground (arith, inv.writer)
  move-writer inv drop_frame = ground (arith, inv.writer)
  move-writer inv (copy lt) = ground (arith, inv.writer)
  move-writer inv copied = ground (arith, inv.writer)
  move-writer inv describe = ground (arith, inv.writer)
  move-writer inv name = ground (arith, inv.writer)
  move-writer inv unlock = ground (arith, inv.writer)
  move-writer inv announce = ground (arith, inv.writer)

  -- A slot that a reader has keeps its number, its time and its bytes.
  move-held :
      {w w' : Writer} {m' : Ring} {l' : Log}
      → Inv n m l w readers
      → WriterMove m l w m' l' w'
      → (j k : ℕ) → 0 < sum_over (holds j) n readers
      → ((m'.slots j).frame_id ≡ (m.slots j).frame_id)
        × ((m'.slots j).ts_ns ≡ (m.slots j).ts_ns)
        × ((m'.slots j).pixels k ≡ (m.slots j).pixels k)
        × (m'.frame_size ≡ m.frame_size)
  move-held inv (offer _ _) j k held = ground (arith, inv.excluded j)
  move-held inv (win free) j k held = ground (arith, inv.excluded j)
  move-held inv (lose _) j k held = ground (arith, inv.excluded j)
  move-held inv drop_frame j k held = ground (arith, inv.excluded j)
  move-held inv (copy _) j k held = ground (arith, inv.excluded j)
  move-held inv copied j k held = ground (arith, inv.excluded j)
  move-held inv describe j k held = ground (arith, inv.excluded j)
  move-held inv name j k held = ground (arith, inv.excluded j)
  move-held inv unlock j k held = ground (arith, inv.excluded j)
  move-held inv announce j k held = ground (arith, inv.excluded j)

-- A reader's locals stay true where its slot stays the same.
pub kept-ReaderKnows :
    (m m' : Ring) (p : Reader)
    → ReaderKnows m p
    → ((j k : ℕ)
        → holds j p ≡ 1
        → ((m'.slots j).frame_id ≡ (m.slots j).frame_id)
          × ((m'.slots j).ts_ns ≡ (m.slots j).ts_ns)
          × ((m'.slots j).pixels k ≡ (m.slots j).pixels k)
          × (m'.frame_size ≡ m.frame_size))
    → ReaderKnows m' p
kept-ReaderKnows m m' away h same = tt
kept-ReaderKnows m m' (looking idx e) h same = tt
kept-ReaderKnows m m' (trying idx e cur) h same = h
kept-ReaderKnows m m' (noting idx e) h same = tt
kept-ReaderKnows m m' (checking idx e) h same = tt
kept-ReaderKnows m m' (viewing idx actual) h same = ground (arith, same idx 0)
kept-ReaderKnows m m' (returning idx) h same = tt
kept-ReaderKnows m m' (holding idx v seen) (named, timed, bytes) same = (
  ground (arith, same idx 0),
  ground (arith, same idx 0),
  λ k. ground (arith, same idx k, bytes k),
)

module _ {n : ℕ} {m : Ring} {l : Log} {readers : ℕ → Reader} where
  -- Every step of the producer keeps the invariant.
  pub WriterMove-Inv :
      {w w' : Writer} {m' : Ring} {l' : Log}
      → Inv n m l w readers
      → WriterMove m l w m' l' w'
      → Inv n m' l' w' readers
  WriterMove-Inv {m'} inv mv = record {
    few = inv.few;
    counts = λ j. (move-counts inv mv j).0;
    excluded = λ j locked. ground (arith, move-counts inv mv j);
    ids = move-ids inv mv;
    stored = λ j clear real. record {
      timed = move-timed inv mv j clear real;
      copied = λ k small. move-copied inv mv j k clear real small;
    };
    writer = move-writer inv mv;
    reader = λ i lt. kept-ReaderKnows m m' (readers i) (inv.reader i lt) (λ j k held.
        move-held inv mv j k (omega (arith, held, le-sum_over (holds j) n readers i lt)));
  }
