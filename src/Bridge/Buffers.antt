-- ===== src/Bridge/Buffers.antt =====
-- Frames in the shared segment of auto-targeting/crates/cv-inference/src/bridge_client.rs.
use native.Mathlib.Decide.{dec_lt}
use native.Mathlib.Nat.{mod-lt, div-add-mod, mul-le-mul, le_refl}
use autotargeting.Base.{
  ℕ, zero, suc, ◌+◌, ◌-◌, ◌*◌, ◌/◌, ◌%◌, ◌^◌, ◌≤◌, ◌<◌, ◌≡◌, ◌≢◌, ◌⊎◌, inl, inr, refl, ap, sym, ◌∙◌,
  Option, none, some, List, [], ◌∷◌, length, get_elem?, u32, ok, mul-below, arith,
}
use autotargeting.Frames.{Frame}
use autotargeting.Bridge.Segment.{FrameShm, copy_to, write_frame}
use autotargeting.Bridge.Client.{Client, Outside, place_frame, place_in_shm, place_by}

-- The byte `k` of a list that is long enough.
get_elem?-below : (xs : List ℕ) (k : ℕ) → k < length xs → (b : ℕ) × (get_elem? xs k ≡ some b)
get_elem?-below [] k h = absurd (omega arith)
get_elem?-below (x ∷ xs) zero h = (x, refl)
get_elem?-below (x ∷ xs) (suc k) h = get_elem?-below xs k (omega arith)

-- A buffer of the segment shows these bytes.
abbrev pub Shows : FrameShm → ℕ → List ℕ → Type 0
Shows shm i bytes =
    (k : ℕ) → k < length bytes → get_elem? bytes k ≡ some (shm.memory (i * shm.frame_size + k))

-- A segment as `create` makes it: the buffers fill it.
abbrev pub IsSegment : FrameShm → Type 0
IsSegment shm = (shm.len ≡ shm.frame_size * shm.buffers) × (0 < shm.buffers)

copy_to-Shows :
    (dst k : ℕ) (bytes : List ℕ) (memory : ℕ → ℕ)
    → k < length bytes
    → get_elem? bytes k ≡ some (copy_to dst bytes memory (dst + k))
unfolding copy_to
copy_to-Shows dst k bytes memory h =
    let found = get_elem?-below bytes k h in
    let e : dst + k - dst ≡ k = omega arith in ground (arith, found.1, e)

copy_to-outside :
    (dst i : ℕ) (bytes : List ℕ) (memory : ℕ → ℕ)
    → (i < dst) ⊎ (dst + length bytes ≤ i)
    → copy_to dst bytes memory i ≡ memory i
unfolding copy_to
copy_to-outside dst i bytes memory h = ground arith

buffers_apart :
    (i j size n k : ℕ)
    → j ≢ i
    → n ≤ size
    → k < size
    → (j * size + k < i * size) ⊎ (i * size + n ≤ j * size + k)
buffers_apart i j size n k ne hn hk = elim (dec_lt j i) [
  | yes below ↦ inl (omega (arith, mul-below j i size below))
  | no not_below ↦ inr (omega (arith, mul-below i j size (omega arith)))
]

-- What one write does: the frame stands in its buffer, inside the segment, and every other buffer is
-- as it was.
write_frame-Shows :
    (index : ℕ) (bytes : List ℕ) (shm : FrameShm)
    → IsSegment shm
    → index < shm.buffers
    → length bytes ≤ shm.frame_size
    → (r : FrameShm) × (write_frame index bytes shm ≡ some r)
      × ((r.len ≡ shm.len) × (r.frame_size ≡ shm.frame_size) × (r.buffers ≡ shm.buffers))
      × Shows r index bytes
      × (index * shm.frame_size + length bytes ≤ shm.len)
      × ((j : ℕ) (old : List ℕ)
          → j ≢ index
          → length old ≤ shm.frame_size
          → Shows shm j old
          → Shows r j old)
unfolding write_frame
write_frame-Shows index bytes shm seg below fits = (
  record shm { memory = copy_to (index * shm.frame_size) bytes shm.memory },
  ground arith,
  (refl, refl, refl),
  (λ k h. copy_to-Shows (index * shm.frame_size) k bytes shm.memory h),
  omega (arith, seg.0, mul-below index shm.buffers shm.frame_size below),
  (λ j old ne len shows k h.
      shows k h
      ∙ ap some (
          sym (
            copy_to-outside (index * shm.frame_size) (j * shm.frame_size + k) bytes shm.memory
              (buffers_apart index j shm.frame_size (length bytes) k ne fits (omega arith))))),
)

module _ {F : Type 0} (out : Outside F) where
  place_in_shm_lem :
      (frame : Frame) (c : Client) (shm r : FrameShm)
      → write_frame (c.shm_buf_cursor % shm.buffers) frame.bytes shm ≡ some r
      → place_in_shm out frame shm c ≡ (
        record c { shm_buf_cursor = u32 (c.shm_buf_cursor + 1); frame_shm = some r },
        ok (none, some (c.shm_buf_cursor % shm.buffers)),
      )
  unfolding place_in_shm
  place_in_shm_lem frame c shm r w = rw (place_in_shm, w) refl

  place_frame_lem :
      (frame : Frame) (c : Client) (shm : FrameShm)
      → c.frame_shm ≡ some shm
      → place_frame out frame c ≡ place_in_shm out frame shm c
  unfolding place_frame place_by
  place_frame_lem frame c shm e = ap (λ (o : Option FrameShm). place_by out frame o c) e

mul_le : (a b k : ℕ) → a ≤ b → a * k ≤ b * k
mul_le a b k h = mul-le-mul h (le_refl k)

next_buffer :
    (cursor buffers : ℕ)
    → 2 ≤ buffers
    → cursor + 1 < 2 ^ 32
    → u32 (cursor + 1) % buffers ≢ cursor % buffers
next_buffer cursor buffers two small same =
    let e : u32 (cursor + 1) ≡ cursor + 1 = omega arith in
    let p : (cursor + 1) % buffers ≡ cursor % buffers =
      ap (λ (x : ℕ). x % buffers) (sym e) ∙ same in
    let a = div-add-mod (cursor + 1) buffers in
    let b = div-add-mod cursor buffers in
    elim (dec_lt (cursor / buffers) ((cursor + 1) / buffers)) [
      | yes up ↦
          omega (arith, a, b, p, mul-below (cursor / buffers) ((cursor + 1) / buffers) buffers up)
      | no stay ↦
          omega (
            arith,
            a,
            b,
            p,
            mul_le ((cursor + 1) / buffers) (cursor / buffers) buffers (omega arith),
          )
    ]

module _ {F : Type 0} (out : Outside F) where
  -- On a client whose segment has at least two buffers, and whose counter does not wrap round, two
  -- frames that fit into a buffer are placed in two different buffers inside the segment, and after
  -- the second both are there byte for byte.
  pub two_frames_kept :
      (f g : Frame) (c : Client) (shm : FrameShm)
      → c.frame_shm ≡ some shm
      → IsSegment shm
      → 2 ≤ shm.buffers
      → c.shm_buf_cursor + 1 < 2 ^ 32
      → length f.bytes ≤ shm.frame_size
      → length g.bytes ≤ shm.frame_size
      → (c1 c2 : Client) × (i j : ℕ) × (m : FrameShm) × (place_frame out f c
          ≡ (c1, ok (none, some i)))
        × (place_frame out g c1 ≡ (c2, ok (none, some j)))
        × (c2.frame_shm ≡ some m)
        × (i ≢ j)
        × Shows m i f.bytes
        × Shows m j g.bytes
        × (i * shm.frame_size + length f.bytes ≤ shm.len)
        × (j * shm.frame_size + length g.bytes ≤ shm.len)
  two_frames_kept f g c shm has seg two small hf hg =
      let i = c.shm_buf_cursor % shm.buffers in
      let w = write_frame-Shows i f.bytes shm seg (mod-lt c.shm_buf_cursor (omega arith)) hf in
      let c1 = record c { shm_buf_cursor = u32 (c.shm_buf_cursor + 1); frame_shm = some w.0 } in
      let same = w.2 in
      let j = u32 (c.shm_buf_cursor + 1) % (w.0).buffers in
      let seg1 : IsSegment w.0 = rw (same.0, same.1, same.2) seg in
      let v =
        write_frame-Shows j g.bytes w.0 seg1
          (mod-lt (u32 (c.shm_buf_cursor + 1)) (omega (arith, same.2))) (omega (arith, same.1)) in
      let apart : i ≢ j = λ e.
        next_buffer c.shm_buf_cursor shm.buffers two small
          (ap (λ (b : ℕ). u32 (c.shm_buf_cursor + 1) % b) (sym same.2) ∙ sym e) in
      (
        c1,
        record c1 { shm_buf_cursor = u32 (c1.shm_buf_cursor + 1); frame_shm = some v.0 },
        i,
        j,
        v.0,
        place_frame_lem out f c shm has ∙ place_in_shm_lem out f c shm w.0 w.1,
        place_frame_lem out g c1 w.0 refl ∙ place_in_shm_lem out g c1 w.0 v.0 v.1,
        refl,
        apart,
        v.5 i f.bytes apart (omega (arith, same.1, hf)) w.3,
        v.3,
        w.4,
        omega (arith, v.4, same.0, ap (λ (t : ℕ). j * t) same.1),
      )
