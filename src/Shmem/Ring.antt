-- ===== src/Shmem/Ring.antt =====
-- auto-targeting/crates/shmem-buffer/src/ring.rs: the producer and the consumer, each call
-- run alone (the reaper is in Reaper.antt). Memory is a function from the slot's index to the
-- slot, as the address arithmetic of `Region::slot` and `Region::data_ptr` has it, and the bytes of a
-- frame a function from the position.
pub mod Producer
pub mod Log
pub mod Consumer
pub mod Reaper
pub mod Sharing
mod Tests
use autotargeting.Base.{
  ℕ, zero, suc, ◌+◌, ◌-◌, ◌*◌, ◌%◌, ◌^◌, min, Bool, true, false, not, ◌&&◌, Option, none, some,
  Result, ok, err, u32, u64, ltb, leb, ◌==◌, if◌then◌else◌,
}
use autotargeting.Shmem.Layout.{BufferHeader, writer_lock}
use autotargeting.Shmem.Config.{RingError, invalid_frame_size, id_overflow}

pub record SlotMeta : Type 0 where
  pub ref_count : ℕ  -- u32
  pub frame_id : ℕ  -- u64
  pub ts_ns : ℕ  -- u64
  pub width : ℕ
  pub height : ℕ
  pub format : ℕ
  pub holder_pid : ℕ
  pub pixels : ℕ → ℕ

pub record Ring : Type 0 where
  pub header : BufferHeader
  pub open header use *
  pub slots : ℕ → SlotMeta

-- A slice of bytes.
pub record Bytes : Type 0 where
  pub len : ℕ
  pub at : ℕ → ℕ

pub data DropReason : Type 0 where
  held_by_readers : (slot readers : ℕ) → DropReason
  writer_lock_held : (slot : ℕ) → DropReason

pub data PublishResult : Type 0 where
  published : (frame_id : ℕ) → PublishResult
  dropped : DropReason → PublishResult

-- One write to shared memory.
abbrev pub on_slot : ℕ → (SlotMeta → SlotMeta) → Ring → Ring
on_slot idx f r = record r { slots = λ j. if j == idx then f (r.slots j) else r.slots j }

abbrev pub set_ref_count : ℕ → ℕ → Ring → Ring
set_ref_count idx n = on_slot idx λ s. record s { ref_count = n }

abbrev pub count_drop : Ring → Ring
count_drop r = record r {
  header = record r.header { dropped_frames = u64 (r.header.dropped_frames + 1) };
}

-- `copy_nonoverlapping` of `n` bytes.
abbrev pub copy_bytes : ℕ → ℕ → (ℕ → ℕ) → Ring → Ring
copy_bytes idx n src =
    on_slot idx λ s. record s { pixels = λ k. if ltb k n then src k else s.pixels k }

abbrev pub write_slot_meta : ℕ → ℕ → Ring → Ring
write_slot_meta idx ts r =
    on_slot idx
      (λ s. record s { ts_ns = ts; width = r.width; height = r.height; format = r.format }) r

abbrev pub store_frame_id : ℕ → ℕ → Ring → Ring
store_frame_id idx id = on_slot idx λ s. record s { frame_id = id }

abbrev pub store_write_seq : ℕ → Ring → Ring
store_write_seq id r = record r { header = record r.header { write_seq = id } }

-- `seq.checked_add(1)`.
abbrev pub next_id : ℕ → Option ℕ
next_id seq = if ltb (seq + 1) (2 ^ 64) then some (seq + 1) else none

abbrev drop_reason : ℕ → ℕ → DropReason
drop_reason idx cur = if cur == writer_lock then writer_lock_held idx else held_by_readers idx cur

-- The writes of `publish` in their order, from the exchange that takes the slot to the last store.
unfoldable pub write_frame : Ring → Bytes → ℕ → ℕ → ℕ → Ring
write_frame r d ts id idx =
    let locked = set_ref_count idx writer_lock r in
    let copied = copy_bytes idx r.frame_size d.at locked in
    let described = write_slot_meta idx ts copied in
    let named = store_frame_id idx id described in
    let unlocked = set_ref_count idx 0 named in store_write_seq id unlocked

-- `publish` from the exchange `0 → WRITER_LOCK` on.
unfoldable pub publish_slot : Ring → Bytes → ℕ → ℕ → ℕ → Ring × Result RingError PublishResult
publish_slot r d ts id idx =
    if not ((r.slots idx).ref_count == 0)
    then (count_drop r, ok (dropped (drop_reason idx (r.slots idx).ref_count)))
    else (write_frame r d ts id idx, ok (published id))

unfoldable pub publish : Ring → Bytes → ℕ → Ring × Result RingError PublishResult
unfolding publish_slot
publish r d ts =
    if not (d.len == r.frame_size)
    then (r, err (invalid_frame_size r.frame_size d.len))
    else elim (next_id r.write_seq) [
      | none ↦ (r, err id_overflow)
      | some id ↦ publish_slot r d ts id (id % r.capacity)
    ]

pub record FrameView : Type 0 where
  pub frame_id : ℕ
  pub ts_ns : ℕ
  pub width : ℕ
  pub height : ℕ
  pub format : ℕ

-- The guard's data pointer is the slot's: what it shows are the slot's bytes.
pub record FrameGuard : Type 0 where
  pub slot_idx : ℕ
  pub view : FrameView

pub data Acquired : Type 0 where
  got : FrameGuard → Acquired
  busy : Acquired
  mismatch : (actual : ℕ) → Acquired

abbrev pub acquire_spins : ℕ
acquire_spins = 64

-- The `match cur` of `try_acquire`, away from the writer's lock.
abbrev pub taken : ℕ → ℕ
taken cur = if cur == 0 then 1 else cur + 1

-- `fetch_sub(1)`.
abbrev pub released : ℕ → ℕ
released n = u32 (n + 2 ^ 32 - 1)

abbrev pub view_of : SlotMeta → FrameView
view_of s = record {
  frame_id = s.frame_id;
  ts_ns = s.ts_ns;
  width = s.width;
  height = s.height;
  format = s.format;
}

abbrev pub is_expected : ℕ → Option ℕ → Bool
is_expected actual none = true
is_expected actual (some want) = actual == want

-- What follows the successful exchange: the process is noted and the frame checked.
unfoldable pub validate_taken : Ring → ℕ → Option ℕ → ℕ → Ring × Acquired
validate_taken r idx expected pid =
    let held = on_slot idx (λ s. record s { holder_pid = pid }) r in
    let s = held.slots idx in
    if is_expected s.frame_id expected
    then (held, got (record { slot_idx = idx; view = view_of s }))
    else (set_ref_count idx (released s.ref_count) held, mismatch s.frame_id)

-- The spin loop with `n` rounds left. Nobody else runs, so an exchange succeeds.
unfoldable pub acquire_rounds : ℕ → Ring → ℕ → Option ℕ → ℕ → Ring × Acquired
unfolding validate_taken
acquire_rounds zero r idx expected pid = (r, busy)
acquire_rounds (suc n) r idx expected pid =
    let again = acquire_rounds n r idx expected pid in
    let cur = (r.slots idx).ref_count in
    if cur == writer_lock
    then again
    else validate_taken (set_ref_count idx (taken cur) r) idx expected pid

unfoldable pub try_acquire : Ring → ℕ → Option ℕ → ℕ → Ring × Acquired
unfolding acquire_rounds
try_acquire r slot_idx expected pid =
    acquire_rounds acquire_spins r (slot_idx % r.capacity) expected pid

abbrev guard_of : Acquired → Option FrameGuard
guard_of (got g) = some g
guard_of _ = none

unfoldable pub latest : Ring → ℕ → Ring × Option FrameGuard
latest r pid =
    if r.write_seq == 0
    then (r, none)
    else let (r', acquired) = try_acquire r (r.write_seq % r.capacity) none pid in
      (r', guard_of acquired)

pub data NextStep : Type 0 where
  frame : FrameGuard → NextStep
  up_to_date : NextStep
  too_far_behind : (last_seen latest : ℕ) → NextStep

-- `saturating_add(1)`.
abbrev pub wanted : ℕ → ℕ
wanted last_id = min (last_id + 1) (2 ^ 64 - 1)

-- The retry loop with `n` rounds left.
unfoldable pub next_rounds : ℕ → Ring → ℕ → ℕ → Ring × NextStep
next_rounds zero r last_id pid = (r, up_to_date)
next_rounds (suc n) r last_id pid =
    let want = wanted last_id in
    let seq = r.write_seq in
    let attempt = try_acquire r (want % r.capacity) (some want) pid in
    let again = next_rounds n attempt.0 last_id pid in
    if seq == 0
    then (r, up_to_date)
    else if ltb seq want
    then (r, up_to_date)
    else if leb r.capacity (seq - want)
    then (r, too_far_behind last_id seq)
    else elim attempt.1 [ got g ↦ (attempt.0, frame g) | _ ↦ again ]

unfoldable pub next_after : Ring → ℕ → ℕ → Ring × NextStep
next_after r last_id pid = next_rounds (acquire_spins * 4) r last_id pid

-- `Drop` of a guard.
unfoldable pub drop_guard : Ring → FrameGuard → Ring
drop_guard r g = set_ref_count g.slot_idx (released (r.slots g.slot_idx).ref_count) r
