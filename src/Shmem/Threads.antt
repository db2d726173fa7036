-- ===== src/Shmem/Threads.antt =====
-- auto-targeting/crates/shmem-buffer/src/ring.rs: the producer and the readers on one ring, at the same
-- time, one access to shared memory after the other. All accesses are taken as sequentially
-- consistent; the bytes of a frame are copied one by one. A process that has crashed is one that never
-- moves again; the reaper is left out.
pub mod Invariant
pub mod WriterMoves
pub mod ReaderMoves
pub mod Safety
mod Tests
use autotargeting.Base.{
  ℕ, ◌+◌, ◌%◌, ◌<◌, ◌≡◌, ◌≢◌, Bool, true, false, Option, none, some, ◌==◌, if◌then◌else◌, put,
}
use autotargeting.Shmem.Layout.{writer_lock}
use autotargeting.Shmem.Ring.{
  SlotMeta, Ring, Bytes, FrameView, on_slot, set_ref_count, count_drop, write_slot_meta,
  store_frame_id, store_write_seq, next_id, taken, released, view_of, is_expected,
}

-- The frames by their numbers, with their times: what the producer was given when it took the slot.
abbrev pub Log : Type 0
Log = ℕ → Bytes × ℕ

-- Where the producer stands in `publish`, with its live variables.
pub data Writer : Type 0 where
  resting : Writer
  offering : (d : Bytes) (ts id : ℕ) → Writer  -- before the compare-exchange
  refused : Writer  -- before `dropped_frames` is counted
  copying : (d : Bytes) (ts id k : ℕ) → Writer  -- `k` bytes are copied
  describing : (d : Bytes) (ts id : ℕ) → Writer
  naming : (d : Bytes) (ts id : ℕ) → Writer
  unlocking : (id : ℕ) → Writer
  announcing : (id : ℕ) → Writer

-- Where a reader stands in `try_acquire`, and then with its guard.
pub data Reader : Type 0 where
  away : Reader
  looking : (idx : ℕ) (expected : Option ℕ) → Reader
  trying : (idx : ℕ) (expected : Option ℕ) (cur : ℕ) → Reader
  noting : (idx : ℕ) (expected : Option ℕ) → Reader
  checking : (idx : ℕ) (expected : Option ℕ) → Reader
  viewing : (idx actual : ℕ) → Reader
  returning : (idx : ℕ) → Reader  -- the wrong frame
  holding : (idx : ℕ) (view : FrameView) (seen : ℕ → Option ℕ) → Reader  -- the bytes read so far

abbrev pub copy_byte : ℕ → ℕ → ℕ → Ring → Ring
copy_byte idx k b = on_slot idx λ s. record s { pixels = put s.pixels k b }

-- One step of the producer. A wrong size and the end of the numbers return without an access. The load
-- that names the reason of a drop only reaches the result.
pub data WriterMove (m : Ring) (l : Log) : Writer → Ring → Log → Writer → Type 0 where
  offer :
      {d : Bytes} {ts id : ℕ}
      → d.len ≡ m.frame_size
      → next_id m.write_seq ≡ some id
      → WriterMove m l resting m l (offering d ts id)
  win :
      {d : Bytes} {ts id : ℕ}
      → (m.slots (id % m.capacity)).ref_count ≡ 0
      → WriterMove m l
          (offering d ts id)
          (set_ref_count (id % m.capacity) writer_lock m)
          (put l id (d, ts))
          (copying d ts id 0)
  lose :
      {d : Bytes} {ts id : ℕ}
      → (m.slots (id % m.capacity)).ref_count ≢ 0
      → WriterMove m l (offering d ts id) m l refused
  drop_frame : WriterMove m l refused (count_drop m) l resting
  copy :
      {d : Bytes} {ts id k : ℕ}
      → k < m.frame_size
      → WriterMove m l
          (copying d ts id k)
          (copy_byte (id % m.capacity) k (d.at k) m)
          l
          (copying d ts id (k + 1))
  copied :
      {d : Bytes} {ts id : ℕ}
      → WriterMove m l (copying d ts id m.frame_size) m l (describing d ts id)
  describe :
      {d : Bytes} {ts id : ℕ}
      → WriterMove m l
          (describing d ts id)
          (write_slot_meta (id % m.capacity) ts m)
          l
          (naming d ts id)
  name :
      {d : Bytes} {ts id : ℕ}
      → WriterMove m l (naming d ts id) (store_frame_id (id % m.capacity) id m) l (unlocking id)
  unlock :
      {id : ℕ}
      → WriterMove m l (unlocking id) (set_ref_count (id % m.capacity) 0 m) l (announcing id)
  announce : {id : ℕ} → WriterMove m l (announcing id) (store_write_seq id m) l resting

-- One step of a reader. Which slot it looks at and what it expects there is left open, as is the
-- number of rounds that it spins: `latest` and `next_after` are cases of it.
pub data ReaderMove (m : Ring) : Reader → Ring → Reader → Type 0 where
  look : {idx : ℕ} {e : Option ℕ} → ReaderMove m away m (looking idx e)
  give_up : {idx : ℕ} {e : Option ℕ} → ReaderMove m (looking idx e) m away
  spin :
      {idx : ℕ} {e : Option ℕ}
      → (m.slots idx).ref_count ≡ writer_lock
      → ReaderMove m (looking idx e) m (looking idx e)
  load :
      {idx : ℕ} {e : Option ℕ}
      → (m.slots idx).ref_count ≢ writer_lock
      → ReaderMove m (looking idx e) m (trying idx e (m.slots idx).ref_count)
  exchange :
      {idx : ℕ} {e : Option ℕ} {cur : ℕ}
      → (m.slots idx).ref_count ≡ cur
      → ReaderMove m (trying idx e cur) (set_ref_count idx (taken cur) m) (noting idx e)
  outrun :
      {idx : ℕ} {e : Option ℕ} {cur : ℕ}
      → (m.slots idx).ref_count ≢ cur
      → ReaderMove m (trying idx e cur) m (looking idx e)
  note :
      (pid : ℕ) {idx : ℕ} {e : Option ℕ}
      → ReaderMove m
          (noting idx e)
          (on_slot idx (λ s. record s { holder_pid = pid }) m)
          (checking idx e)
  accept :
      {idx : ℕ} {e : Option ℕ}
      → is_expected (m.slots idx).frame_id e ≡ true
      → ReaderMove m (checking idx e) m (viewing idx (m.slots idx).frame_id)
  reject :
      {idx : ℕ} {e : Option ℕ}
      → is_expected (m.slots idx).frame_id e ≡ false
      → ReaderMove m (checking idx e) m (returning idx)
  give_back :
      {idx : ℕ}
      → ReaderMove m (returning idx) (set_ref_count idx (released (m.slots idx).ref_count) m) away
  view :
      {idx actual : ℕ}
      → ReaderMove m
          (viewing idx actual)
          m
          (holding idx (record (view_of (m.slots idx)) { frame_id = actual }) (λ _. none))
  read :
      {idx k : ℕ} {v : FrameView} {seen : ℕ → Option ℕ}
      → k < m.frame_size
      → ReaderMove m
          (holding idx v seen)
          m
          (holding idx v (put seen k (some ((m.slots idx).pixels k))))
  drop_guard :
      {idx : ℕ} {v : FrameView} {seen : ℕ → Option ℕ}
      → ReaderMove m
          (holding idx v seen)
          (set_ref_count idx (released (m.slots idx).ref_count) m)
          away

pub record Threads : Type 0 where
  pub mem : Ring
  pub log : Log
  pub writer : Writer
  pub readers : ℕ → Reader

-- `n` readers.
pub data Step (n : ℕ) (s : Threads) : Threads → Type 0 where
  writes :
      {m : Ring} {l : Log} {w : Writer}
      → WriterMove s.mem s.log s.writer m l w
      → Step n s (record { mem = m; log = l; writer = w; readers = s.readers })
  reads :
      (i : ℕ) {m : Ring} {p : Reader}
      → i < n
      → ReaderMove s.mem (s.readers i) m p
      → Step n s (record s { mem = m; readers = put s.readers i p })

-- A ring as it is made, and everybody at rest.
abbrev pub IsFresh : Threads → Type 0
IsFresh s =
    ((j : ℕ) → ((s.mem.slots j).ref_count ≡ 0) × ((s.mem.slots j).frame_id ≡ 0))
    × (s.writer ≡ resting)
    × ((i : ℕ) → s.readers i ≡ away)

pub data Reach (n : ℕ) : Threads → Type 0 where
  start : {s : Threads} → IsFresh s → Reach n s
  later : {s t : Threads} → Reach n s → Step n s t → Reach n t
