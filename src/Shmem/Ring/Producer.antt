-- ===== src/Shmem/Ring/Producer.antt =====
-- What `publish` does on each branch, and what it keeps.
use native.Mathlib.Decide.{dec_lt}
use native.Mathlib.Nat.{div-add-mod, mul-suc, mul-le-mul, le_refl}
use autotargeting.Base.{
  ℕ, ◌+◌, ◌/◌, ◌%◌, ◌^◌, ◌≤◌, ◌<◌, ◌≡◌, ◌≢◌, ◌⊎◌, refl, ap, sym, ◌∙◌, inl, inr, List, [], ◌∷◌, ok,
  err, arith, u64,
}
use autotargeting.Shmem.Layout.{writer_lock}
use autotargeting.Shmem.Config.{invalid_frame_size, id_overflow}
use autotargeting.Shmem.Ring.{
  Ring, Bytes, published, dropped, held_by_readers, writer_lock_held, publish, write_frame,
}

-- A published frame stands in its slot with its bytes, time and number, and nobody holds it.
pub record IsStored (r : Ring) (d : Bytes) (ts id : ℕ) : Type 0 where
  pub free : (r.slots (id % r.capacity)).ref_count ≡ 0
  pub named : (r.slots (id % r.capacity)).frame_id ≡ id
  pub timed : (r.slots (id % r.capacity)).ts_ns ≡ ts
  pub copied : (k : ℕ) → k < r.frame_size → (r.slots (id % r.capacity)).pixels k ≡ d.at k

write_frame-IsStored :
    (r : Ring) (d : Bytes) (ts id : ℕ) → IsStored (write_frame r d ts id (id % r.capacity)) d ts id
unfolding write_frame
write_frame-IsStored r d ts id = record {
  free = ground arith;
  named = ground arith;
  timed = ground arith;
  copied = λ k h. ground arith;
}

kept :
    (r : Ring) (d : Bytes) (ts id j : ℕ)
    → j ≢ id % r.capacity
    → let r' = write_frame r d ts id (id % r.capacity) in
      (r'.slots j ≡ r.slots j)
      × (r'.write_seq ≡ id)
      × (r'.capacity ≡ r.capacity)
      × (r'.frame_size ≡ r.frame_size)
unfolding write_frame
kept r d ts id j other = ground arith

publish-write_frame :
    (r : Ring) (d : Bytes) (ts : ℕ)
    → d.len ≡ r.frame_size
    → r.write_seq + 1 < 2 ^ 64
    → (r.slots ((r.write_seq + 1) % r.capacity)).ref_count ≡ 0
    → publish r d ts ≡ (
      write_frame r d ts (r.write_seq + 1) ((r.write_seq + 1) % r.capacity),
      ok (published (r.write_seq + 1)),
    )
unfolding publish
publish-write_frame r d ts size small free = ground arith

-- A frame of the right size whose slot is free is published under the next number: it stands in its
-- slot, every other slot is as before, and `write_seq` is its number. The number has 64 bits.
pub publish_free :
    (r : Ring) (d : Bytes) (ts j : ℕ)
    → d.len ≡ r.frame_size
    → r.write_seq + 1 < 2 ^ 64
    → (r.slots ((r.write_seq + 1) % r.capacity)).ref_count ≡ 0
    → j ≢ (r.write_seq + 1) % r.capacity
    → let (r', result) = publish r d ts in
      (result ≡ ok (published (r.write_seq + 1)))
      × IsStored r' d ts (r.write_seq + 1)
      × (r'.slots j ≡ r.slots j)
      × (r'.write_seq ≡ r.write_seq + 1)
      × (r'.capacity ≡ r.capacity)
      × (r'.frame_size ≡ r.frame_size)
publish_free r d ts j size small free other =
    let (same, seq, capacity, frame_size) = kept r d ts (r.write_seq + 1) j other in
    rw (publish-write_frame r d ts size small free)
      (refl, write_frame-IsStored r d ts (r.write_seq + 1), same, seq, capacity, frame_size)

published-write_frame :
    (r : Ring) (d : Bytes) (ts id : ℕ)
    → (publish r d ts).1 ≡ ok (published id)
    → (id ≡ r.write_seq + 1) × ((publish r d ts).0 ≡ write_frame r d ts id (id % r.capacity))
unfolding publish
published-write_frame r d ts id e = ground arith

-- What the caller of a successful `publish` knows of the ring.
pub record IsLatest (r : Ring) (d : Bytes) (ts id : ℕ) : Type 0 where
  pub stored : IsStored r d ts id
  pub last : r.write_seq ≡ id
  pub first : 0 < id

write_frame-IsLatest :
    (r : Ring) (d : Bytes) (ts id : ℕ)
    → 0 < id
    → IsLatest (write_frame r d ts id (id % r.capacity)) d ts id
unfolding write_frame
write_frame-IsLatest r d ts id h = record {
  stored = write_frame-IsStored r d ts id;
  last = refl;
  first = h;
}

pub published-IsLatest :
    (r : Ring) (d : Bytes) (ts id : ℕ)
    → (publish r d ts).1 ≡ ok (published id)
    → IsLatest (publish r d ts).0 d ts id
published-IsLatest r d ts id e =
    let (next, same) = published-write_frame r d ts id e in
    rw same (write_frame-IsLatest r d ts id (omega arith))

pub frame_size-publish :
    (r : Ring) (d : Bytes) (ts : ℕ) → (publish r d ts).0.frame_size ≡ r.frame_size
unfolding publish write_frame
frame_size-publish r d ts = ground arith

-- A frame that is not published changes no slot and no number. If its size is wrong or the numbers
-- are used up, it is an error and the ring is the same. If its slot is held, the drop is counted, and
-- its reason names the writer's lock or the number of readers.
pub publish_refused :
    (r : Ring) (d : Bytes) (ts : ℕ)
    → (d.len ≢ r.frame_size)
      ⊎ (2 ^ 64 ≤ r.write_seq + 1)
      ⊎ ((r.slots ((r.write_seq + 1) % r.capacity)).ref_count ≢ 0)
    → let (r', result) = publish r d ts in
      let idx = (r.write_seq + 1) % r.capacity in
      let held = (r.slots idx).ref_count in
      (r'.slots ≡ r.slots)
      × (r'.write_seq ≡ r.write_seq)
      × (((d.len ≢ r.frame_size)
            × (r' ≡ r)
            × (result ≡ err (invalid_frame_size r.frame_size d.len)))
          ⊎ ((2 ^ 64 ≤ r.write_seq + 1) × (r' ≡ r) × (result ≡ err id_overflow))
          ⊎ ((held ≡ writer_lock)
              × (r'.dropped_frames ≡ u64 (r.dropped_frames + 1))
              × (result ≡ ok (dropped (writer_lock_held idx))))
          ⊎ ((held ≢ 0)
              × (held ≢ writer_lock)
              × (r'.dropped_frames ≡ u64 (r.dropped_frames + 1))
              × (result ≡ ok (dropped (held_by_readers idx held)))))
unfolding publish
publish_refused r d ts why = ground arith

-- Frames offered one after another.
unfoldable pub publish_all : Ring → List (Bytes × ℕ) → Ring
publish_all r [] = r
publish_all r ((d, ts) ∷ rest) = publish_all (publish r d ts).0 rest

publish-held :
    (r : Ring) (d : Bytes) (ts idx : ℕ)
    → (r.slots idx).ref_count ≢ 0
    → (publish r d ts).0.slots idx ≡ r.slots idx
unfolding publish write_frame
publish-held r d ts idx held = ground arith

-- As long as a slot is held, no number of frames offered to the producer changes it: its bytes, its
-- number and its holders stay.
pub publish_all-held :
    (r : Ring) (offers : List (Bytes × ℕ)) (idx : ℕ)
    → (r.slots idx).ref_count ≢ 0
    → (publish_all r offers).slots idx ≡ r.slots idx
unfolding publish_all
publish_all-held r [] idx held = refl
publish_all-held r ((d, ts) ∷ rest) idx held =
    let same = publish-held r d ts idx held in
    publish_all-held (publish r d ts).0 rest idx (λ e. held (ap (λ s. s.ref_count) (sym same) ∙ e))
    ∙ same

-- What a consumer relies on: the last `capacity` numbers each stand in their slot, and no slot has a
-- number that is still to come.
pub record IsWindowed (r : Ring) : Type 0 where
  pub positive : 0 < r.capacity
  pub current :
      (n : ℕ)
      → 0 < n
      → n ≤ r.write_seq
      → r.write_seq < n + r.capacity
      → (r.slots (n % r.capacity)).frame_id ≡ n
  pub past : (j : ℕ) → (r.slots j).frame_id ≤ r.write_seq

-- Two numbers less than `m` apart stand in different slots.
pub mod-ne : (a b m : ℕ) → a < b → b < a + m → a % m ≢ b % m
mod-ne a b m h k e = elim (dec_lt (a / m) (b / m)) [
  | yes up ↦ absurd (
      omega
        (arith, e, div-add-mod a m, div-add-mod b m, mul-suc m (a / m), mul-le-mul (le_refl m) up))
  | no down ↦
      let fewer : b / m ≤ a / m = omega arith in
      absurd (omega (arith, e, div-add-mod a m, div-add-mod b m, mul-le-mul (le_refl m) fewer))
]

publish_cases :
    (r : Ring) (d : Bytes) (ts : ℕ)
    → let r' = (publish r d ts).0 in
      ((r'.slots ≡ r.slots) × (r'.write_seq ≡ r.write_seq) × (r'.capacity ≡ r.capacity))
      ⊎ (r' ≡ write_frame r d ts (r.write_seq + 1) ((r.write_seq + 1) % r.capacity))
unfolding publish
publish_cases r d ts = ground arith

write_frame-IsWindowed :
    (r : Ring) (d : Bytes) (ts : ℕ)
    → IsWindowed r
    → IsWindowed (write_frame r d ts (r.write_seq + 1) ((r.write_seq + 1) % r.capacity))
unfolding write_frame
write_frame-IsWindowed r d ts w = record {
  positive = w.positive;
  current = λ n h k l. ground (arith, mod-ne n (r.write_seq + 1) r.capacity, w.current n h);
  past = λ j. ground (arith, w.past j);
}

-- Whatever is offered, `publish` keeps the last numbers in their slots.
pub publish-IsWindowed :
    (r : Ring) (d : Bytes) (ts : ℕ) → IsWindowed r → IsWindowed (publish r d ts).0
publish-IsWindowed r d ts w = elim (publish_cases r d ts) [
  | inl (slots, seq, capacity) ↦ record {
    positive = rw capacity w.positive;
    current = rw (slots, seq, capacity) w.current;
    past = rw (slots, seq) w.past;
  }
  | inr e ↦ rw e (write_frame-IsWindowed r d ts w)
]
