-- ===== src/Shmem/Layout/Bounds.antt =====
-- The parts of a segment lie inside it and apart from one another.
use autotargeting.Base.{
  ℕ, zero, suc, ◌+◌, ◌*◌, ◌/◌, ◌%◌, ◌^◌, ◌≤◌, ◌<◌, ◌≡◌, ◌↔◌, some, ap, arith, mul-below,
}
use autotargeting.Shmem.Layout.{
  header_bytes, slot_bytes, format_nv12, format_rgb24, frame_size, data_area_offset, segment_size,
  slot_offset, data_offset,
}
use native.Mathlib.Nat.{mul_assoc}

even-mul : (n m : ℕ) → n % 2 ≡ 0 → (n * m) % 2 ≡ 0
even-mul n m h =
    let half : n ≡ n / 2 * 2 = omega arith in
    omega (arith, ap (λ (t : ℕ). t * m) half, mul_assoc (n / 2) 2 m)

-- An NV12 frame has a size exactly when its sides are positive and even and one and a half bytes a
-- pixel fit 32 bits; that is then its size.
pub frame_size-nv12 :
    (width height n : ℕ)
    → (frame_size format_nv12 width height ≡ some n) ↔ (
        (0 < width)
        × (0 < height)
        × (width % 2 ≡ 0)
        × (height % 2 ≡ 0)
        × (2 * n ≡ 3 * (width * height))
        × (n < 2 ^ 32))
unfolding frame_size
frame_size-nv12 zero height n = ground arith
frame_size-nv12 (suc w) zero n = ground arith
frame_size-nv12 (suc w) (suc h) n = ground (arith, even-mul (suc w) (suc h))

pub frame_size-rgb24 :
    (width height n : ℕ)
    → (frame_size format_rgb24 width height ≡ some n)
      ↔ ((0 < width) × (0 < height) × (n ≡ 3 * (width * height)) × (n < 2 ^ 32))
unfolding frame_size
frame_size-rgb24 zero height n = ground arith
frame_size-rgb24 (suc w) zero n = ground arith
frame_size-rgb24 (suc w) (suc h) n = ground arith

-- In a segment, slot `i` ends before the data area, the data of slot `i` ends before those of every
-- later slot and before the end of the segment, and slots end before later slots.
pub parts_in_order :
    (capacity size i j : ℕ)
    → i < j
    → j < capacity
    → (header_bytes ≤ slot_offset i)
      × (slot_offset i + slot_bytes ≤ slot_offset j)
      × (slot_offset j + slot_bytes ≤ data_offset capacity size i)
      × (data_offset capacity size i + size ≤ data_offset capacity size j)
      × (data_offset capacity size j + size ≤ segment_size capacity size)
unfolding slot_offset data_offset segment_size data_area_offset
parts_in_order capacity size i j h k =
    omega (arith, mul-below i j size h, mul-below j capacity size k)
