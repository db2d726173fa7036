-- ===== src/Shmem/Ring/Consumer.antt =====
-- What a consumer gets from a ring.
use native.Mathlib.Decide.{dec_lt}
use native.Mathlib.Nat.{mod-mod}
use autotargeting.Base.{
  ℕ, suc, ◌+◌, ◌%◌, ◌^◌, ◌≤◌, ◌<◌, ◌≡◌, ◌≢◌, ◌⊎◌, refl, inl, inr, Option, none, some, ok, true,
  arith,
}
use autotargeting.Shmem.Layout.{writer_lock}
use autotargeting.Shmem.Ring.{
  Ring, Bytes, got, FrameGuard, NextStep, frame, up_to_date, too_far_behind, published, on_slot,
  set_ref_count, taken, view_of, is_expected, acquire_rounds, try_acquire, latest, next_rounds,
  next_after, wanted, drop_guard, publish,
}
use autotargeting.Shmem.Ring.Producer.{IsWindowed, IsLatest, published-IsLatest, frame_size-publish}

-- The ring in which the process `pid` has taken slot `idx`.
abbrev pub hold : ℕ → ℕ → Ring → Ring
hold idx pid r =
    on_slot idx (λ s. record s { holder_pid = pid })
      (set_ref_count idx (taken (r.slots idx).ref_count) r)

abbrev guard_on : ℕ → Ring → FrameGuard
guard_on idx r = record { slot_idx = idx; view = view_of (r.slots idx) }

acquire_rounds_free :
    (n : ℕ) (r : Ring) (idx : ℕ) (expected : Option ℕ) (pid : ℕ)
    → (r.slots idx).ref_count ≢ writer_lock
    → is_expected (r.slots idx).frame_id expected ≡ true
    → acquire_rounds (suc n) r idx expected pid ≡ (hold idx pid r, got (guard_on idx r))
unfolding acquire_rounds
acquire_rounds_free n r idx expected pid free fits = ground arith

try_acquire_free :
    (r : Ring) (slot : ℕ) (expected : Option ℕ) (pid : ℕ)
    → let idx = slot % r.capacity in
      (r.slots idx).ref_count ≢ writer_lock
      → is_expected (r.slots idx).frame_id expected ≡ true
      → try_acquire r slot expected pid ≡ (hold idx pid r, got (guard_on idx r))
unfolding try_acquire
try_acquire_free r slot expected pid free fits =
    acquire_rounds_free 63 r (slot % r.capacity) expected pid free fits

-- The three answers of `next_after` to a consumer that has seen `last`, by how far it is behind.
abbrev pub IsNext : Ring → ℕ → ℕ → Ring × NextStep → Type 0
IsNext r last pid (r', step) =
    ((r.write_seq < last + 1) × (r' ≡ r) × (step ≡ up_to_date))
    ⊎ ((last + 1 + r.capacity ≤ r.write_seq) × (r' ≡ r) × (step ≡ too_far_behind last r.write_seq))
    ⊎ ((last + 1 ≤ r.write_seq)
        × (r.write_seq < last + 1 + r.capacity)
        × (r' ≡ hold ((last + 1) % r.capacity) pid r)
        × ((g : FrameGuard) × (step ≡ frame g)
            × (g.slot_idx ≡ (last + 1) % r.capacity)
            × (g.view ≡ view_of (r.slots ((last + 1) % r.capacity)))
            × (g.view.frame_id ≡ last + 1)))

wanted-last : (last : ℕ) → last + 1 < 2 ^ 64 → wanted last ≡ last + 1
wanted-last last h = omega arith

-- The attempt of one round, at a frame that is still there.
attempt_current :
    (r : Ring) (last pid : ℕ)
    → IsWindowed r
    → (r.slots ((last + 1) % r.capacity)).ref_count ≢ writer_lock
    → last + 1 ≤ r.write_seq
    → r.write_seq < last + 1 + r.capacity
    → try_acquire r ((last + 1) % r.capacity) (some (last + 1)) pid
      ≡ (hold ((last + 1) % r.capacity) pid r, got (guard_on ((last + 1) % r.capacity) r))
attempt_current r last pid w free le lt =
    let same = mod-mod (last + 1) r.capacity in
    rw
      (try_acquire_free r ((last + 1) % r.capacity) (some (last + 1)) pid (rw same free)
        (rw same (ground (arith, w.current (last + 1) (omega arith) le lt))))
      (rw same)

next_rounds-IsNext :
    (n : ℕ) (r : Ring) (last pid : ℕ)
    → IsWindowed r
    → (r.slots ((last + 1) % r.capacity)).ref_count ≢ writer_lock
    → last + 1 < 2 ^ 64
    → IsNext r last pid (next_rounds (suc n) r last pid)
unfolding next_rounds
next_rounds-IsNext n r last pid w free small = elim (dec_lt r.write_seq (last + 1)) [
  | yes ahead ↦ inl (ahead, ground arith, ground arith)
  | no there ↦ elim (dec_lt r.write_seq (last + 1 + r.capacity)) [
    | yes near ↦
        let slot = (last + 1) % r.capacity in
        let attempt = attempt_current r last pid w free (omega arith) near in
        inr (
          inr (
            omega arith,
            near,
            ground (arith, attempt),
            (
              guard_on slot r,
              ground (arith, attempt),
              refl,
              refl,
              w.current (last + 1) (omega arith) (omega arith) near,
            ),
          ))
    | no far ↦ inr (inl (omega arith, ground arith, ground arith))
  ]
]

-- On a ring that holds its last `capacity` frames, and whose next slot is not being written,
-- `next_after` answers that the consumer is up to date exactly when the next frame is not there yet,
-- that it is too far behind exactly when that frame is overwritten, and otherwise with a guard on that
-- very frame, whose slot gets one more holder.
pub next_after-IsNext :
    (r : Ring) (last pid : ℕ)
    → IsWindowed r
    → (r.slots ((last + 1) % r.capacity)).ref_count ≢ writer_lock
    → last + 1 < 2 ^ 64
    → IsNext r last pid (next_after r last pid)
unfolding next_after
next_after-IsNext r last pid w free small = next_rounds-IsNext 255 r last pid w free small

latest-IsLatest :
    (r : Ring) (d : Bytes) (ts pid id k : ℕ)
    → IsLatest r d ts id
    → k < r.frame_size
    → let (r', guard) = latest r pid in
      (g : FrameGuard) × (guard ≡ some g)
      × (g.view.frame_id ≡ id)
      × (g.view.ts_ns ≡ ts)
      × ((r'.slots g.slot_idx).pixels k ≡ d.at k)
unfolding latest
latest-IsLatest r d ts pid id k l h =
    let slot = id % r.capacity in
    let same = mod-mod id r.capacity in
    let free : (r.slots (slot % r.capacity)).ref_count ≢ writer_lock =
      rw (same, l.stored.free) (omega arith) in
    let taken_latest : try_acquire r slot none pid ≡ (hold slot pid r, got (guard_on slot r)) =
      rw (try_acquire_free r slot none pid free refl) (rw same) in
    (
      guard_on slot r,
      ground (arith, l.last, l.first, taken_latest),
      l.stored.named,
      l.stored.timed,
      ground (arith, l.last, l.first, taken_latest, l.stored.copied k h),
    )

-- A frame that was just published is what `latest` hands out: the guard has its number and time and
-- shows its bytes.
pub latest-publish :
    (r : Ring) (d : Bytes) (ts pid id k : ℕ)
    → (publish r d ts).1 ≡ ok (published id)
    → k < r.frame_size
    → let (r', guard) = latest (publish r d ts).0 pid in
      (g : FrameGuard) × (guard ≡ some g)
      × (g.view.frame_id ≡ id)
      × (g.view.ts_ns ≡ ts)
      × ((r'.slots g.slot_idx).pixels k ≡ d.at k)
latest-publish r d ts pid id k e h =
    latest-IsLatest (publish r d ts).0 d ts pid id k (published-IsLatest r d ts id e)
      (rw (frame_size-publish r d ts) h)

-- Dropping a guard gives the slot back as it was before the frame was taken, but for the note of the
-- last holder.
pub drop_guard-hold :
    (r : Ring) (g : FrameGuard) (pid : ℕ)
    → (r.slots g.slot_idx).ref_count < writer_lock
    → let s = (drop_guard (hold g.slot_idx pid r) g).slots g.slot_idx in
      s ≡ record (r.slots g.slot_idx) { holder_pid = pid }
unfolding drop_guard
drop_guard-hold r g pid h = ground arith
