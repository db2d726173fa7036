-- ===== src/Shmem/Threads/ReaderMoves.antt =====
-- The steps of a reader keep the invariant.
use native.Mathlib.Decide.{ℕ_discrete}
use autotargeting.Base.{
  ℕ, ◌+◌, ◌%◌, ◌≤◌, ◌<◌, ◌≡◌, ◌≢◌, ◌⊎◌, false, if◌then◌else◌, sum_over, sum_over-put, sum_over-le,
  le-sum_over, arith, put,
}
use autotargeting.Shmem.Layout.{writer_lock}
use autotargeting.Shmem.Ring.{Ring}
use autotargeting.Shmem.Threads.{
  Log, Writer, resting, offering, refused, copying, describing, naming, unlocking, announcing,
  Reader, ReaderMove, look, give_up, spin, load, exchange, outrun, note, accept, reject, give_back,
  view, read, drop_guard,
}
use autotargeting.Shmem.Threads.Invariant.{
  holds, locks, fills, Shows, WriterKnows, ReaderKnows, Inv,
}
use autotargeting.Shmem.Threads.WriterMoves.{kept-ReaderKnows}

holds-le-one : (j : ℕ) (p : Reader) → holds j p ≤ 1
holds-le-one j p = ground arith

put-ne : {A : Type 0} (f : ℕ → A) (i : ℕ) (x : A) (j : ℕ) → j ≢ i → put f i x j ≡ f j
put-ne f i x j h = ground arith

kept-WriterKnows :
    (m m' : Ring) (l : Log) (w : Writer)
    → WriterKnows m l w
    → ((j k : ℕ)
        → ((m'.slots j).ts_ns ≡ (m.slots j).ts_ns)
          × ((m'.slots j).pixels k ≡ (m.slots j).pixels k)
          × (m'.header ≡ m.header))
    → WriterKnows m' l w
kept-WriterKnows m m' l resting h same = tt
kept-WriterKnows m m' l (offering d ts id) h same = ground (arith, h, same 0 0)
kept-WriterKnows m m' l refused h same = tt
kept-WriterKnows m m' l (copying d ts id k) (next, logged, filled) same = (
  ground (arith, same 0 0),
  logged,
  λ a small. ground (arith, filled a small, same (id % m.capacity) a),
)
kept-WriterKnows m m' l (describing d ts id) (next, logged, filled) same = (
  ground (arith, same 0 0),
  logged,
  λ a small. ground (arith, filled a, same (id % m.capacity) a),
)
kept-WriterKnows m m' l (naming d ts id) (next, logged, filled, timed) same = (
  ground (arith, same 0 0),
  logged,
  λ a small. ground (arith, filled a, same (id % m.capacity) a),
  ground (arith, timed, same (id % m.capacity) 0),
)
kept-WriterKnows m m' l (unlocking id) h same = ground (arith, h, same 0 0)
kept-WriterKnows m m' l (announcing id) h same = ground (arith, h, same 0 0)

module _ {m : Ring} where
  -- A reader changes the count of a slot and the note of its holder only.
  pub move-frames :
      {p p' : Reader} {m' : Ring}
      → ReaderMove m p m' p'
      → (j k : ℕ)
      → ((m'.slots j).frame_id ≡ (m.slots j).frame_id)
        × ((m'.slots j).ts_ns ≡ (m.slots j).ts_ns)
        × ((m'.slots j).pixels k ≡ (m.slots j).pixels k)
        × (m'.header ≡ m.header)
  move-frames look j k = ground arith
  move-frames give_up j k = ground arith
  move-frames (spin _) j k = ground arith
  move-frames (load _) j k = ground arith
  move-frames (exchange _) j k = ground arith
  move-frames (outrun _) j k = ground arith
  move-frames (note _) j k = ground arith
  move-frames (accept _) j k = ground arith
  move-frames (reject _) j k = ground arith
  move-frames give_back j k = ground arith
  move-frames view j k = ground arith
  move-frames (read _) j k = ground arith
  move-frames drop_guard j k = ground arith

module _ (n : ℕ) (m : Ring) (l : Log) (w : Writer) (readers : ℕ → Reader) where
  -- Reader `i` goes from `p` to `p'`.
  record Mover (i : ℕ) (p p' : Reader) : Type 0 where
    inv : Inv n m l w readers
    knows : ReaderKnows m p
    sums :
        (j : ℕ)
        → sum_over (holds j) n (put readers i p') + holds j p
          ≡ sum_over (holds j) n readers + holds j p'
    room :
        (j : ℕ)
        → (sum_over (holds j) n (put readers i p') ≤ n) × (holds j p ≤ sum_over (holds j) n readers)

  mover : (i : ℕ) (p' : Reader) → Inv n m l w readers → i < n → Mover i (readers i) p'
  mover i p' inv lt = record {
    inv = inv;
    knows = inv.reader i lt;
    sums = λ j. sum_over-put (holds j) n readers i p' lt;
    room = λ j. (
      sum_over-le (holds j) (holds-le-one j) n (put readers i p'),
      le-sum_over (holds j) n readers i lt,
    );
  }

  move-counts :
      {i : ℕ} {p p' : Reader} {m' : Ring}
      → Mover i p p'
      → ReaderMove m p m' p'
      → (j : ℕ)
      → ((m'.slots j).ref_count ≡ (
          if locks m'.capacity j w then writer_lock else sum_over (holds j) n (put readers i p')))
        × ((locks m'.capacity j w ≡ false) ⊎ (sum_over (holds j) n (put readers i p') ≡ 0))
  move-counts f look j =
      ground (arith, f.sums j, f.room j, f.inv.counts j, f.inv.excluded j, f.inv.few, f.knows)
  move-counts f give_up j =
      ground (arith, f.sums j, f.room j, f.inv.counts j, f.inv.excluded j, f.inv.few, f.knows)
  move-counts f (spin _) j =
      ground (arith, f.sums j, f.room j, f.inv.counts j, f.inv.excluded j, f.inv.few, f.knows)
  move-counts f (load free) j =
      ground (arith, f.sums j, f.room j, f.inv.counts j, f.inv.excluded j, f.inv.few, f.knows)
  move-counts f (exchange e) j =
      ground (arith, f.sums j, f.room j, f.inv.counts j, f.inv.excluded j, f.inv.few, f.knows)
  move-counts f (outrun _) j =
      ground (arith, f.sums j, f.room j, f.inv.counts j, f.inv.excluded j, f.inv.few, f.knows)
  move-counts f (note _) j =
      ground (arith, f.sums j, f.room j, f.inv.counts j, f.inv.excluded j, f.inv.few, f.knows)
  move-counts f (accept _) j =
      ground (arith, f.sums j, f.room j, f.inv.counts j, f.inv.excluded j, f.inv.few, f.knows)
  move-counts f (reject _) j =
      ground (arith, f.sums j, f.room j, f.inv.counts j, f.inv.excluded j, f.inv.few, f.knows)
  move-counts f give_back j =
      ground (arith, f.sums j, f.room j, f.inv.counts j, f.inv.excluded j, f.inv.few, f.knows)
  move-counts f view j =
      ground (arith, f.sums j, f.room j, f.inv.counts j, f.inv.excluded j, f.inv.few, f.knows)
  move-counts f (read _) j =
      ground (arith, f.sums j, f.room j, f.inv.counts j, f.inv.excluded j, f.inv.few, f.knows)
  move-counts f drop_guard j =
      ground (arith, f.sums j, f.room j, f.inv.counts j, f.inv.excluded j, f.inv.few, f.knows)

  move-own :
      {i : ℕ} {p p' : Reader} {m' : Ring} → Mover i p p' → ReaderMove m p m' p' → ReaderKnows m' p'
  move-own f look = ground (arith, f.knows)
  move-own f give_up = ground (arith, f.knows)
  move-own f (spin _) = ground (arith, f.knows)
  move-own f (load free) = ground (arith, f.knows)
  move-own f (exchange e) = ground (arith, f.knows)
  move-own f (outrun _) = ground (arith, f.knows)
  move-own f (note _) = ground (arith, f.knows)
  move-own f (accept _) = ground (arith, f.knows)
  move-own f (reject _) = ground (arith, f.knows)
  move-own f give_back = ground (arith, f.knows)
  move-own f view = ground (arith, f.knows)
  move-own f (read small) =
      let (named, timed, bytes) = f.knows in (named, timed, λ k. ground (arith, bytes k, small))
  move-own f drop_guard = ground (arith, f.knows)

  move-reader :
      {i : ℕ} {p' : Reader} {m' : Ring}
      → Mover i (readers i) p'
      → ReaderMove m (readers i) m' p'
      → (a : ℕ) → a < n
      → ReaderKnows m' (put readers i p' a)
  move-reader {i} {p'} {m'} f mv a lt = elim (ℕ_discrete a i) [
    | yes e ↦ rw e (ground (arith, move-own f mv))
    | no e ↦ rw (put-ne readers i p' a e) (
        kept-ReaderKnows m m' (readers a) (f.inv.reader a lt)
          (λ j k _. ground (arith, move-frames mv j k)))
  ]

  move-stored :
      {p p' : Reader} {m' : Ring}
      → Inv n m l w readers
      → ReaderMove m p m' p'
      → (j : ℕ) → fills m'.capacity j w ≡ false
      → (m'.slots j).frame_id ≢ 0
      → Shows m'.frame_size (l (m'.slots j).frame_id) (m'.slots j)
  move-stored {m'} inv mv j clear real =
      let same = move-frames mv j 0 in
      let old = inv.stored j (ground (arith, same)) (ground (arith, same)) in
      record {
        timed = ground (arith, same, old.timed);
        copied = λ k small. ground (arith, move-frames mv j k, old.copied k);
      }

-- Every step of a reader keeps the invariant.
pub ReaderMove-Inv :
    {n : ℕ} {m m' : Ring} {l : Log} {w : Writer} {readers : ℕ → Reader} {p' : Reader} (i : ℕ)
    → Inv n m l w readers
    → i < n
    → ReaderMove m (readers i) m' p'
    → Inv n m' l w (put readers i p')
ReaderMove-Inv {n} {m} {m'} {l} {w} {readers} {p'} i inv lt mv =
    let f = mover n m l w readers i p' inv lt in
    record {
      few = inv.few;
      counts = λ j. (move-counts n m l w readers f mv j).0;
      excluded = λ j locked. ground (arith, move-counts n m l w readers f mv j);
      ids = λ j. ground (arith, move-frames mv j 0, inv.ids j);
      stored = move-stored n m l w readers inv mv;
      writer = kept-WriterKnows m m' l w inv.writer (λ j k. ground (arith, move-frames mv j k));
      reader = move-reader n m l w readers f mv;
    }
