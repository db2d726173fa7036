-- ===== src/Shmem/Config/Tests.antt =====
-- The default ring, and the theorems on configurations and segments at it.
use autotargeting.Base.{◌+◌, ◌*◌, ◌≤◌, ◌≡◌, refl, ok, err, some, arith}
use autotargeting.Shmem.Layout.{
  BufferHeader, format_nv12, slot_bytes, frame_size, data_area_offset, segment_size, slot_offset,
  data_offset,
}
use autotargeting.Shmem.Config.{
  RingConfig, nv12, bad_magic, attach_failed, frame_size_check, code, validate, write_header_init,
  attach_raw,
}
use autotargeting.Shmem.Config.Attach.{attach_raw-write_header_init, attach_raw_bounds}

abbrev default_ring : RingConfig
default_ring = record { capacity = 10; width = 640; height = 480; format = nv12 }

default_size : frame_size_check default_ring ≡ some 460_800
unfolding frame_size_check frame_size
default_size = refl

odd_width : frame_size format_nv12 321 240 ≡ frame_size 99 640 480
unfolding frame_size
odd_width = refl

default_header : BufferHeader
unfolding write_header_init code
default_header = write_header_init default_ring 460_800 7 42

no_magic :
    attach_raw (record default_header { magic = 0 }) 4_608_704 ≡ err (attach_failed bad_magic)
unfolding default_header attach_raw
no_magic = refl

attach_raw-write_header_init_example :
    (attach_raw (write_header_init default_ring 460_800 7 42) (segment_size 10 460_800)
      ≡ ok (record { len = segment_size 10 460_800; capacity = 10; frame_size = 460_800 }))
    × (segment_size 10 460_800 ≤ 256 * 1024 * 1024)
unfolding validate frame_size_check frame_size segment_size
attach_raw-write_header_init_example =
    attach_raw-write_header_init default_ring 460_800 7 42 refl refl

attach_raw_bounds_example :
    (slot_offset 9 + slot_bytes ≤ data_area_offset 10)
    × (data_area_offset 10 ≤ data_offset 10 460_800 9)
    × (data_offset 10 460_800 9 + 460_800 ≤ 4_608_704)
    × (10 ≤ 4096)
unfolding default_header attach_raw segment_size
attach_raw_bounds_example = attach_raw_bounds default_header 4_608_704 9 refl (omega arith)
