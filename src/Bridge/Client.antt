-- ===== src/Bridge/Client.antt =====
-- auto-targeting/crates/cv-inference/src/bridge_client.rs: the client. The JSON texts are parameters.
use autotargeting.Base.{
  ℕ, ◌+◌, ◌*◌, ◌%◌, max, Bool, true, false, ◌&&◌, Option, none, some, List, map, if◌then◌else◌, u32,
  Result, ok, err, ◌>>=◌, length, Fallible,
}
use autotargeting.Detections.{BoundingBox, Detection}
use autotargeting.Frames.{Frame, PixelFormat}
use autotargeting.Bridge.Base64.{base64_encode}
use autotargeting.Bridge.Framing.{
  InferenceError, bridge_connection, bridge_protocol, inference, model_not_loaded, Stream, exchange,
  write_all, read_exact, to_be_bytes, from_be_bytes, ◌>>>◌,
}
use autotargeting.Bridge.Segment.{FrameShm, create, write_frame}

pub record InitRequest : Type 0 where
  pub input_width : ℕ
  pub input_height : ℕ
  pub frame_shm : Bool  -- the path of the segment is named
  pub frame_shm_buffers : Option ℕ
  pub frame_shm_size : Option ℕ

pub record InferRequest : Type 0 where
  pub frame_seq : ℕ
  pub frame_data_b64 : Option (List ℕ)
  pub frame_shm_buf : Option ℕ
  pub frame_width : ℕ
  pub frame_height : ℕ
  pub frame_format : PixelFormat
  pub captured_at_ms : ℕ

pub record DetectionJson (F : Type 0) : Type 0 where
  pub bbox : BoundingBox
  pub class_id : ℕ
  pub confidence : F

pub record InferResponse (F : Type 0) : Type 0 where
  pub ok_flag : Bool
  pub detections : List (DetectionJson F)

-- The configuration, as far as the client computes with it; `frame_shm` says that a path is set.
pub record RknnBridgeConfig : Type 0 where
  pub input_width : ℕ
  pub input_height : ℕ
  pub frame_shm : Bool
  pub frame_shm_buffers : ℕ

pub record Client : Type 0 where
  pub config : RknnBridgeConfig
  pub stream : Option Stream
  pub initialized : Bool
  pub frame_shm : Option FrameShm
  pub shm_buf_cursor : ℕ

unfoldable pub new : RknnBridgeConfig → Client
new config = record {
  config = config;
  stream = none;
  initialized = false;
  frame_shm = none;
  shm_buf_cursor = 0;
}

-- `From<DetectionJson>`, and the number of the frame that is set on every detection.
abbrev pub detection_of : {F : Type 0} → ℕ → ℕ → DetectionJson F → Detection F
detection_of seq now d = record {
  bbox = d.bbox;
  class_id = d.class_id;
  confidence = d.confidence;
  frame_seq = seq;
  detected_at = now;
}

-- What stands outside: the check of UTF-8, the texts of the messages, and the grants of mappings.
pub record Outside (F : Type 0) : Type 0 where
  pub utf8 : List ℕ → Bool
  pub init_json : InitRequest → List ℕ
  pub init_ack : List ℕ → Option Bool  -- the flag `ok` of a text that parses
  pub infer_json : InferRequest → List ℕ
  pub infer_ack : List ℕ → Option (InferResponse F)
  pub health_ack : List ℕ → Option Bool
  pub shutdown_json : List ℕ
  pub health_json : List ℕ
  pub grants : ℕ → Bool

-- `self.stream.as_mut()`: the client with what became of its stream.
abbrev pub over_stream :
    {A : Type 0} → Client → Fallible Stream InferenceError A → Fallible Client InferenceError A
over_stream c (s, r) = (record c { stream = some s }, r)

module _ {F : Type 0} (out : Outside F) where
  unfoldable pub send_recv : List ℕ → Client → Fallible Client InferenceError (List ℕ)
  send_recv json c = elim c.stream [
    | none ↦ (c, err bridge_connection)
    | some s ↦ over_stream c (exchange out.utf8 json s)
  ]

  -- The segment of the first `init`, and what the request says of it. Where it is refused the client
  -- falls back to base64.
  unfoldable pub prepare_shm : Client → Client × InitRequest
  prepare_shm c =
      let cfg = c.config in
      let without : InitRequest = record {
        input_width = cfg.input_width;
        input_height = cfg.input_height;
        frame_shm = false;
        frame_shm_buffers = none;
        frame_shm_size = none;
      } in
      let tensor = max cfg.input_width cfg.input_height in
      let made = create out.grants (tensor * tensor * 3) cfg.frame_shm_buffers in
      let is_absent : Bool = elim c.frame_shm [ none ↦ true | some s ↦ false ] in
      if cfg.frame_shm && is_absent
      then elim made [
        | none ↦ (record c { config = record cfg { frame_shm = false } }, without)
        | some shm ↦ (
          record c { frame_shm = some shm },
          record without {
            frame_shm = true;
            frame_shm_buffers = some shm.buffers;
            frame_shm_size = some shm.frame_size;
          },
        )
      ]
      else (c, without)

  unfoldable pub acknowledge :
      Fallible Client InferenceError (List ℕ) → Fallible Client InferenceError (Unit {0})
  acknowledge (c, err e) = (c, err e)
  acknowledge (c, ok text) = elim (out.init_ack text) [
    | none ↦ (c, err bridge_protocol)
    | some true ↦ (record c { initialized = true }, ok tt)
    | some false ↦ (c, err bridge_connection)
  ]

  -- `connected` is what `connect_socket` comes to.
  unfoldable pub init : Option Stream → Client → Fallible Client InferenceError (Unit {0})
  init none c = (c, err bridge_connection)
  init (some s) c =
      let prepared = prepare_shm (record c { stream = some s }) in
      acknowledge (send_recv (out.init_json prepared.1) prepared.0)

  -- The frame in the next buffer of the segment.
  unfoldable pub place_in_shm :
      Frame → FrameShm → Client → Fallible Client InferenceError (Option (List ℕ) × Option ℕ)
  place_in_shm frame shm c =
      let index = c.shm_buf_cursor % shm.buffers in
      let next = record c { shm_buf_cursor = u32 (c.shm_buf_cursor + 1) } in
      elim (write_frame index frame.bytes shm) [
        | none ↦ (next, err bridge_protocol)
        | some written ↦ (record next { frame_shm = some written }, ok (none, some index))
      ]

  -- The frame's way to the process: its buffer in the segment, or its text.
  unfoldable pub place_by :
      Frame → Option FrameShm → Client → Fallible Client InferenceError (Option (List ℕ) × Option ℕ)
  place_by frame none c = (c, ok (some (base64_encode frame.bytes), none))
  place_by frame (some shm) c = place_in_shm frame shm c

  unfoldable pub place_frame :
      Frame → Client → Fallible Client InferenceError (Option (List ℕ) × Option ℕ)
  place_frame frame c = place_by frame c.frame_shm c

  unfoldable pub detections_of :
      ℕ
      → ℕ
      → Fallible Client InferenceError (List ℕ)
      → Fallible Client InferenceError (List (Detection F))
  detections_of seq now (c, err e) = (c, err e)
  detections_of seq now (c, ok text) = elim (out.infer_ack text) [
    | none ↦ (c, err bridge_protocol)
    | some resp ↦
        (c, if resp.ok_flag then ok (map (detection_of seq now) resp.detections) else err inference)
  ]

  unfoldable pub request_of : Frame → Option (List ℕ) → Option ℕ → InferRequest
  request_of frame text buf = record {
    frame_seq = frame.metadata.seq;
    frame_data_b64 = text;
    frame_shm_buf = buf;
    frame_width = frame.metadata.width;
    frame_height = frame.metadata.height;
    frame_format = frame.metadata.format;
    captured_at_ms = frame.metadata.captured_at;
  }

  unfoldable pub infer_placed :
      Frame
      → ℕ
      → Fallible Client InferenceError (Option (List ℕ) × Option ℕ)
      → Fallible Client InferenceError (List (Detection F))
  infer_placed frame now (c, err e) = (c, err e)
  infer_placed frame now (c, ok (text, buf)) =
      detections_of frame.metadata.seq now
        (send_recv (out.infer_json (request_of frame text buf)) c)

  unfoldable pub infer : Frame → ℕ → Client → Fallible Client InferenceError (List (Detection F))
  infer frame now c =
      if c.initialized
      then infer_placed frame now (place_frame frame c)
      else (c, err model_not_loaded)

  -- Over a stream of its own, and with no limit on the length of the answer.
  unfoldable pub health_check : Option Stream → Client → Result InferenceError (Unit {0})
  health_check none c = err (if c.initialized then bridge_connection else model_not_loaded)
  health_check (some s) c =
      let (s5, answer) : Fallible Stream InferenceError (List ℕ) =
        write_all (to_be_bytes (u32 (length out.health_json))) s >>> (λ s1 _.
          write_all out.health_json s1 >>> (λ s2 _.
            read_exact 4 s2 >>> (λ s3 len_buf. read_exact (from_be_bytes len_buf) s3))) in
      if c.initialized
      then answer >>= (λ text. elim (out.health_ack text) [
        | none ↦ err bridge_protocol
        | some true ↦ ok tt
        | some false ↦ err bridge_connection
      ])
      else err model_not_loaded

  -- `Drop`: one attempt to say goodbye.
  unfoldable pub drop_client : Client → Client
  drop_client c = if c.initialized then (send_recv out.shutdown_json c).0 else c
