-- ===== src/Shmem/Config/Attach.antt =====
-- A validated configuration gives a segment that attaches, and an attached segment holds its slots.
use autotargeting.Base.{mul-below, ℕ, ◌+◌, ◌*◌, ◌≤◌, ◌<◌, ◌≡◌, ok, some, arith}
use autotargeting.Shmem.Layout.{
  BufferHeader, slot_bytes, data_area_offset, segment_size, slot_offset, data_offset,
}
use autotargeting.Shmem.Config.{
  RingConfig, Region, frame_size_check, validate, write_header_init, attach_raw,
}

-- A segment that is made for a valid configuration, with the size computed for it, passes the checks
-- of every attaching process, which sees the configured capacity and frame size; it is at most
-- 256 MiB long.
pub attach_raw-write_header_init :
    (c : RingConfig) (fs now pid : ℕ)
    → validate c ≡ ok tt
    → frame_size_check c ≡ some fs
    → let len = segment_size c.capacity fs in
      (attach_raw (write_header_init c fs now pid) len
        ≡ ok (record { len = len; capacity = c.capacity; frame_size = fs }))
      × (len ≤ 256 * 1024 * 1024)
unfolding validate attach_raw write_header_init segment_size
attach_raw-write_header_init c fs now pid valid size = ground arith

-- In an attached segment every slot and its data lie inside the mapped bytes, the slots before the
-- data area; whatever the header says.
pub attach_raw_bounds :
    (h : BufferHeader) (len idx : ℕ) {r : Region}
    → attach_raw h len ≡ ok r
    → idx < r.capacity
    → (slot_offset idx + slot_bytes ≤ data_area_offset r.capacity)
      × (data_area_offset r.capacity ≤ data_offset r.capacity r.frame_size idx)
      × (data_offset r.capacity r.frame_size idx + r.frame_size ≤ len)
      × (r.capacity ≤ 4096)
unfolding attach_raw segment_size slot_offset data_offset
attach_raw_bounds h len idx {r} e k = ground (arith, mul-below idx r.capacity r.frame_size k)
