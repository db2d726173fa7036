-- ===== src/Shmem/Threads/Invariant.antt =====
-- What holds between the accesses: who has which slot, and what the slots and the locals say.
use autotargeting.Base.{
  ℕ, ◌+◌, ◌%◌, ◌≤◌, ◌<◌, ◌≡◌, ◌≢◌, ◌⊎◌, Bool, true, false, none, some, ◌==◌, if◌then◌else◌,
  sum_over,
}
use autotargeting.Shmem.Layout.{writer_lock}
use autotargeting.Shmem.Ring.{SlotMeta, Ring, Bytes}
use autotargeting.Shmem.Threads.{
  Log, Writer, resting, offering, refused, copying, describing, naming, unlocking, announcing,
  Reader, away, looking, trying, noting, checking, viewing, returning, holding,
}

-- A reader has a slot from its exchange to its `fetch_sub`.
abbrev pub holds : ℕ → Reader → ℕ
holds j away = 0
holds j (looking _ _) = 0
holds j (trying _ _ _) = 0
holds j (noting idx _) = if j == idx then 1 else 0
holds j (checking idx _) = if j == idx then 1 else 0
holds j (viewing idx _) = if j == idx then 1 else 0
holds j (returning idx) = if j == idx then 1 else 0
holds j (holding idx _ _) = if j == idx then 1 else 0

-- The producer has a slot from its exchange to its store of zero.
abbrev pub locks : ℕ → ℕ → Writer → Bool
locks capacity j resting = false
locks capacity j (offering _ _ _) = false
locks capacity j refused = false
locks capacity j (copying d ts id k) = j == id % capacity
locks capacity j (describing d ts id) = j == id % capacity
locks capacity j (naming d ts id) = j == id % capacity
locks capacity j (unlocking id) = j == id % capacity
locks capacity j (announcing id) = false

-- Until its number is stored, what the slot shows is of no frame.
abbrev pub fills : ℕ → ℕ → Writer → Bool
fills capacity j (copying d ts id k) = j == id % capacity
fills capacity j (describing d ts id) = j == id % capacity
fills capacity j (naming d ts id) = j == id % capacity
fills capacity j _ = false

-- The newest number in a slot.
abbrev pub newest : ℕ → Writer → ℕ
newest seq (unlocking id) = seq + 1
newest seq (announcing id) = seq + 1
newest seq _ = seq

-- The slot shows the frame.
pub record Shows (frame_size : ℕ) (frame : Bytes × ℕ) (s : SlotMeta) : Type 0 where
  pub timed : s.ts_ns ≡ frame.1
  pub copied : (k : ℕ) → k < frame_size → s.pixels k ≡ frame.0.at k

abbrev pub Filled : ℕ → Bytes → SlotMeta → Type 0
Filled n d s = (k : ℕ) → k < n → s.pixels k ≡ d.at k

-- What the producer's locals say of shared memory.
abbrev pub WriterKnows : Ring → Log → Writer → Type 0
WriterKnows m l resting = Unit
WriterKnows m l (offering d ts id) = id ≡ m.write_seq + 1
WriterKnows m l refused = Unit
WriterKnows m l (copying d ts id k) =
    (id ≡ m.write_seq + 1) × (l id ≡ (d, ts)) × Filled k d (m.slots (id % m.capacity))
WriterKnows m l (describing d ts id) =
    (id ≡ m.write_seq + 1) × (l id ≡ (d, ts)) × Filled m.frame_size d (m.slots (id % m.capacity))
WriterKnows m l (naming d ts id) =
    (id ≡ m.write_seq + 1)
    × (l id ≡ (d, ts))
    × Filled m.frame_size d (m.slots (id % m.capacity))
    × ((m.slots (id % m.capacity)).ts_ns ≡ ts)
WriterKnows m l (unlocking id) = id ≡ m.write_seq + 1
WriterKnows m l (announcing id) = id ≡ m.write_seq + 1

-- What a reader's locals say of shared memory: a byte that it has seen is the slot's.
abbrev pub ReaderKnows : Ring → Reader → Type 0
ReaderKnows m (trying idx e cur) = cur ≢ writer_lock
ReaderKnows m (viewing idx actual) = (m.slots idx).frame_id ≡ actual
ReaderKnows m (holding idx v seen) =
    ((m.slots idx).frame_id ≡ v.frame_id)
    × ((m.slots idx).ts_ns ≡ v.ts_ns)
    × ((k : ℕ) → (seen k ≡ none) ⊎ ((k < m.frame_size) × (seen k ≡ some ((m.slots idx).pixels k))))
ReaderKnows m _ = Unit

pub record Inv (n : ℕ) (m : Ring) (l : Log) (w : Writer) (readers : ℕ → Reader) : Type 0 where
  pub few : n < writer_lock
  pub counts :
      (j : ℕ)
      → (m.slots j).ref_count
        ≡ (if locks m.capacity j w then writer_lock else sum_over (holds j) n readers)
  pub excluded : (j : ℕ) → locks m.capacity j w ≡ true → sum_over (holds j) n readers ≡ 0
  pub ids : (j : ℕ) → (m.slots j).frame_id ≤ newest m.write_seq w
  pub stored :
      (j : ℕ)
      → fills m.capacity j w ≡ false
      → (m.slots j).frame_id ≢ 0
      → Shows m.frame_size (l (m.slots j).frame_id) (m.slots j)
  pub writer : WriterKnows m l w
  pub reader : (i : ℕ) → i < n → ReaderKnows m (readers i)
