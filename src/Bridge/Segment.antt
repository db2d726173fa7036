-- ===== src/Bridge/Segment.antt =====
-- auto-targeting/crates/cv-inference/src/bridge_client.rs: the shared segment for the frames. Whether
-- the system grants a mapping of a number of bytes is a parameter.
use autotargeting.Base.{
  ℕ, ◌+◌, ◌-◌, ◌*◌, Bool, ◌&&◌, Option, none, some, List, ltb, leb, if◌then◌else◌, length,
  get_elem?,
}

-- The segment for the frames: its bytes by their offset. A pointer into it is an offset.
pub record FrameShm : Type 0 where
  pub memory : ℕ → ℕ
  pub len : ℕ
  pub frame_size : ℕ
  pub buffers : ℕ

-- `FrameShm::create`: a fresh file, its length, its mapping; `grants` says whether they succeed.
unfoldable pub create : (ℕ → Bool) → (frame_size buffers : ℕ) → Option FrameShm
create grants frame_size buffers =
    let len = frame_size * buffers in
    if grants len
    then some (record { memory = λ _. 0; len = len; frame_size = frame_size; buffers = buffers })
    else none

-- `copy_nonoverlapping` to the offset `dst`.
unfoldable pub copy_to : ℕ → List ℕ → (ℕ → ℕ) → ℕ → ℕ
copy_to dst bytes memory i =
    if leb dst i && ltb i (dst + length bytes)
    then elim (get_elem? bytes (i - dst)) [ none ↦ memory i | some b ↦ b ]
    else memory i

unfoldable pub write_frame : ℕ → List ℕ → FrameShm → Option FrameShm
write_frame index bytes shm =
    if leb shm.buffers index
    then none
    else if ltb shm.frame_size (length bytes)
    then none
    else some (record shm { memory = copy_to (index * shm.frame_size) bytes shm.memory })
