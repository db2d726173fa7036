-- ===== src/Bridge/Framing.antt =====
-- auto-targeting/crates/cv-inference/src/bridge_client.rs: messages on the socket, each behind its
-- length. The check of UTF-8 is a parameter.
use autotargeting.Base.{
  ℕ, ◌+◌, ◌*◌, ◌/◌, ◌%◌, ◌^◌, Bool, List, [], ◌∷◌, ◌++◌, ltb, if◌then◌else◌, length, take, drop,
  u32, ok, err, Fallible,
}

-- The variants that the client returns, without their texts.
pub data InferenceError : Type 0 where
  bridge_connection bridge_protocol inference model_not_loaded : InferenceError

-- The socket: whether writes succeed, the bytes that arrive before the timeout, the bytes sent.
pub record Stream : Type 0 where
  pub is_open : Bool
  pub incoming : List ℕ
  pub sent : List ℕ

unfoldable pub write_all : List ℕ → Stream → Fallible Stream InferenceError (Unit {0})
write_all bytes s =
    if s.is_open then (record s { sent = s.sent ++ bytes }, ok tt) else (s, err bridge_protocol)

-- What has arrived is lost where it is less than `n` bytes.
unfoldable pub read_exact : ℕ → Stream → Fallible Stream InferenceError (List ℕ)
read_exact n s =
    if ltb (length s.incoming) n
    then (record s { incoming = [] }, err bridge_protocol)
    else (record s { incoming = drop n s.incoming }, ok (take n s.incoming))

-- `to_be_bytes` of a `u32`, and `from_be_bytes`.
unfoldable pub to_be_bytes : ℕ → List ℕ
to_be_bytes n = n / 2 ^ 24 % 256 ∷ n / 2 ^ 16 % 256 ∷ n / 2 ^ 8 % 256 ∷ n % 256 ∷ []

unfoldable pub from_be_bytes : List ℕ → ℕ
from_be_bytes (a ∷ b ∷ c ∷ d ∷ []) = a * 2 ^ 24 + b * 2 ^ 16 + c * 2 ^ 8 + d
from_be_bytes other = 0

abbrev pub max_response : ℕ
max_response = 10_000_000

infixl 5 ◌>>>◌
-- `?` on the stream.
abbrev pub ◌>>>◌ :
    {A B : Type 0}
    → Fallible Stream InferenceError A
    → (Stream → A → Fallible Stream InferenceError B)
    → Fallible Stream InferenceError B
(s, ok a) >>> f = f s a
(s, err e) >>> f = (s, err e)

module _ (utf8 : List ℕ → Bool) where
  -- The body of `send_recv` on a stream that is there.
  unfoldable pub exchange : List ℕ → Stream → Fallible Stream InferenceError (List ℕ)
  exchange json s0 = write_all (to_be_bytes (u32 (length json))) s0 >>> (λ s1 _.
      write_all json s1 >>> (λ s2 _. read_exact 4 s2 >>> (λ s3 len_buf.
        let resp_len = from_be_bytes len_buf in
        if ltb max_response resp_len
        then (s3, err bridge_protocol)
        else read_exact resp_len s3
          >>> (λ s4 resp_buf. (s4, if utf8 resp_buf then ok resp_buf else err bridge_protocol)))))
