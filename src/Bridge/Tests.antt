-- ===== src/Bridge/Tests.antt =====
-- Tests of Bridge.antt, and the witnesses of its results.
use autotargeting.Base.{
  ℕ, ◌+◌, ◌*◌, ◌≤◌, ◌≡◌, ◌≢◌, refl, Bool, true, false, none, some, List, [], ◌∷◌, ok, ltb,
  chunks_exact, chunks_from, arith,
}
use autotargeting.Frames.{Frame, rgb24}
use autotargeting.Bridge.Base64.{
  base64_encode, base64_decode, encode_chunks, encode_chunk, char_at, chars,
}
use autotargeting.Bridge.Decoding.{base64_decode-encode}
use autotargeting.Bridge.Framing.{Stream, exchange, to_be_bytes}
use autotargeting.Bridge.Segment.{FrameShm}
use autotargeting.Bridge.Client.{
  Client, Outside, InitRequest, InferRequest, place_frame, prepare_shm,
}
use autotargeting.Bridge.Answers.{sent_with, exchange_answers}
use autotargeting.Bridge.Buffers.{Shows, two_frames_kept}

-- "Hello", with one character of padding.
hello :
    base64_encode (72 ∷ 101 ∷ 108 ∷ 108 ∷ 111 ∷ []) ≡ 83 ∷ 71 ∷ 86 ∷ 115 ∷ 98 ∷ 71 ∷ 56 ∷ 61 ∷ []
unfolding base64_encode encode_chunks encode_chunk char_at chars chunks_exact chunks_from
hello = refl

base64_decode-encode_example :
    base64_decode (base64_encode (72 ∷ 101 ∷ 108 ∷ 108 ∷ 111 ∷ []))
    ≡ 72 ∷ 101 ∷ 108 ∷ 108 ∷ 111 ∷ []
base64_decode-encode_example = base64_decode-encode (72 ∷ 101 ∷ 108 ∷ 108 ∷ 111 ∷ []) (omega arith)

abbrev all_valid : List ℕ → Bool
all_valid bytes = true

-- Two answers have arrived: of two bytes and of one.
abbrev two_answers : Stream
two_answers = record {
  is_open = true;
  incoming = 0 ∷ 0 ∷ 0 ∷ 2 ∷ 7 ∷ 8 ∷ 0 ∷ 0 ∷ 0 ∷ 1 ∷ 9 ∷ [];
  sent = [];
}

exchange_answers_example :
    exchange all_valid (5 ∷ []) two_answers
    ≡ (sent_with two_answers (5 ∷ []) (0 ∷ 0 ∷ 0 ∷ 1 ∷ 9 ∷ []), ok (7 ∷ 8 ∷ []))
unfolding to_be_bytes
exchange_answers_example =
    exchange_answers all_valid two_answers (5 ∷ []) (7 ∷ 8 ∷ []) (0 ∷ 0 ∷ 0 ∷ 1 ∷ 9 ∷ []) refl
      (omega arith) refl refl

abbrev quiet : Outside ℕ
quiet = record {
  utf8 = all_valid;
  init_json = λ (r : InitRequest). [];
  init_ack = λ (t : List ℕ). none;
  infer_json = λ (r : InferRequest). [];
  infer_ack = λ (t : List ℕ). none;
  health_ack = λ (t : List ℕ). none;
  shutdown_json = [];
  health_json = [];
  grants = λ (n : ℕ). ltb 0 n;
}

abbrev two_buffers : FrameShm
two_buffers = record { memory = λ _. 0; len = 8; frame_size = 4; buffers = 2 }

abbrev sharing : Client
sharing = record {
  config = record { input_width = 1; input_height = 1; frame_shm = true; frame_shm_buffers = 2 };
  stream = none;
  initialized = true;
  frame_shm = some two_buffers;
  shm_buf_cursor = 6;
}

abbrev small_frame : List ℕ → Frame
small_frame bytes = record {
  bytes = bytes;
  metadata = record { width = 1; height = 1; format = rgb24; captured_at = 5; seq = 7 };
}

two_frames_kept_example :
    (c1 c2 : Client) × (i j : ℕ) × (m : FrameShm) × (place_frame quiet
        (small_frame (1 ∷ 2 ∷ 3 ∷ []))
        sharing
      ≡ (c1, ok (none, some i)))
    × (place_frame quiet (small_frame (4 ∷ 5 ∷ 6 ∷ [])) c1 ≡ (c2, ok (none, some j)))
    × (c2.frame_shm ≡ some m)
    × (i ≢ j)
    × Shows m i (1 ∷ 2 ∷ 3 ∷ [])
    × Shows m j (4 ∷ 5 ∷ 6 ∷ [])
    × (i * 4 + 3 ≤ 8)
    × (j * 4 + 3 ≤ 8)
two_frames_kept_example =
    two_frames_kept quiet (small_frame (1 ∷ 2 ∷ 3 ∷ [])) (small_frame (4 ∷ 5 ∷ 6 ∷ [])) sharing
      two_buffers refl (refl, omega arith) (omega arith) (omega arith) (omega arith) (omega arith)

-- After a second `init`, the request does not name the segment that the frames still go through.
second_init_is_silent : (prepare_shm quiet sharing).1.frame_shm ≡ false
unfolding prepare_shm
second_init_is_silent = refl
