-- ===== src/Recorder.antt =====
-- auto-targeting/crates/video-recorder/src/lib.rs: frames from the ring into the encoder. The ring is
-- the one of Shmem/Ring.antt. What the producer does between two calls is an argument, and so is
-- whether the pipe takes the bytes; the overlay and the status messages are left out.
pub mod Ascent
mod Tests
use autotargeting.Base.{
  ℕ, ◌+◌, ◌*◌, Bool, Option, none, some, List, [], ◌∷◌, ◌==◌, if◌then◌else◌, length, Result, ok,
  err, u64,
}
use autotargeting.Shmem.Ring.{
  Ring, FrameGuard, NextStep, frame, up_to_date, too_far_behind, next_after, latest, drop_guard,
}

pub data ReadMode : Type 0 where
  sequential newest : ReadMode

pub record RecorderStats : Type 0 where
  pub frames_received : ℕ
  pub frames_written : ℕ
  pub jumps : ℕ

-- The reader's part of the state: the ring, the last frame read, the counters.
pub record Reading : Type 0 where
  pub ring : Ring
  pub last : ℕ
  pub stats : RecorderStats

-- A step that brought a frame, or nothing.
abbrev pub Taken : Type 0
Taken = Reading × Option FrameGuard

abbrev pub took : Reading → Ring → FrameGuard → Taken
took s r g = (record s { ring = r; last = g.view.frame_id }, some g)

-- The second attempt, after a jump.
unfoldable pub after_jump : Reading → Ring × NextStep → Taken
after_jump s (r, frame g) = took s r g
after_jump s (r, up_to_date) = (record s { ring = r }, none)
after_jump s (r, too_far_behind l n) = (record s { ring = r }, none)

unfoldable pub after_next : (Ring → Ring) → ℕ → Reading → Ring × NextStep → Taken
after_next meanwhile pid s (r, frame g) = took s r g
after_next meanwhile pid s (r, up_to_date) = (record s { ring = r }, none)
after_next meanwhile pid s (r, too_far_behind l n) =
    let stats = s.stats in
    let jumped = record s {
      ring = r;
      last = n;
      stats = record stats { jumps = u64 (stats.jumps + 1) };
    } in
    after_jump jumped (next_after (meanwhile r) n pid)

unfoldable pub after_latest : Reading → Ring × Option FrameGuard → Taken
after_latest s (r, none) = (record s { ring = r }, none)
after_latest s (r, some g) = took s r g

-- `Recorder::acquire`.
unfoldable pub acquire : ReadMode → (Ring → Ring) → ℕ → Reading → Taken
acquire sequential meanwhile pid s = after_next meanwhile pid s (next_after s.ring s.last pid)
acquire newest meanwhile pid s = after_latest s (latest s.ring pid)

-- What the producer and the other readers do before an attempt, and between its two calls.
pub record Attempt : Type 0 where
  pub before : Ring → Ring
  pub meanwhile : Ring → Ring

-- The numbers of the frames of one attempt after the other, in the loop of `run`.
unfoldable pub read_all : ℕ → List Attempt → Reading → List ℕ
read_all pid [] s = []
read_all pid (a ∷ rest) s =
    let t = acquire sequential a.meanwhile pid (record s { ring = a.before s.ring }) in
    let later = read_all pid rest t.0 in
    elim t.1 [ none ↦ later | some g ↦ g.view.frame_id ∷ later ]

-- What both `wait_first` and the loop of `run` begin with.
abbrev pub begun : Ring → Reading
begun r = record {
  ring = r;
  last = 0;
  stats = record { frames_received = 0; frames_written = 0; jumps = 0 };
}

-- `Recorder::wait_first`, until the deadline: the first frame, and the attempts that are left.
unfoldable pub wait_first :
    ℕ → List Attempt → Reading → Reading × Option (FrameGuard × List Attempt)
wait_first pid [] s = (s, none)
wait_first pid (a ∷ rest) s =
    let t = acquire sequential a.meanwhile pid (record s { ring = a.before s.ring }) in
    let later = wait_first pid rest t.0 in
    elim t.1 [ none ↦ later | some g ↦ (t.0, some (g, rest)) ]

-- The first frame is `pending`; the loop then begins with a `last` of its own.
unfoldable pub ids_of : ℕ → Reading × Option (FrameGuard × List Attempt) → List ℕ
ids_of pid (s, none) = []
ids_of pid (s, some (g, rest)) = g.view.frame_id ∷ read_all pid rest (begun s.ring)

-- The numbers of the frames that `Recorder::run` reads.
unfoldable pub run_ids : ℕ → List Attempt → Ring → List ℕ
unfolding ids_of
run_ids pid attempts r = ids_of pid (wait_first pid attempts (begun r))

pub data RecorderError : Type 0 where
  invalid_config pipe_write : RecorderError

-- The encoder: its frame size, whether its input is there, and what it has been given.
pub record FfmpegRawWriter : Type 0 where
  pub width : ℕ
  pub height : ℕ
  pub is_piped : Bool
  pub frames : List (List ℕ)
  pub bytes_written : ℕ

-- `accepts` says whether the pipe takes the bytes.
unfoldable pub write_frame :
    Bool → List ℕ → FfmpegRawWriter → FfmpegRawWriter × Result RecorderError (Unit {0})
write_frame accepts rgb w =
    let expected = w.width * w.height * 3 in
    if length rgb == expected
    then (if w.is_piped
        then (if accepts
            then (
              record w {
                frames = rgb ∷ w.frames;
                bytes_written = u64 (w.bytes_written + expected);
              },
              ok tt,
            )
            else (w, err pipe_write))
        else (w, err pipe_write))
    else (w, err invalid_config)
