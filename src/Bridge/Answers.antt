-- ===== src/Bridge/Answers.antt =====
-- What `send_recv` of auto-targeting/crates/cv-inference/src/bridge_client.rs makes of an answer.
use autotargeting.Base.{
  ℕ, ◌^◌, ◌<◌, ◌≡◌, refl, Bool, true, false, List, ◌++◌, ltb, if◌then◌else◌, length, length-append,
  take-append, drop-append, u32, ok, err, arith, Bool-cases, inl, inr,
}
use autotargeting.Bridge.Framing.{
  bridge_protocol, Stream, write_all, read_exact, to_be_bytes, from_be_bytes, max_response,
  exchange,
}

from_be_bytes-to_be_bytes : (n : ℕ) → n < 2 ^ 32 → from_be_bytes (to_be_bytes n) ≡ n
unfolding from_be_bytes to_be_bytes
from_be_bytes-to_be_bytes n h = omega arith

read_exact-append :
    (s : Stream) (xs rest : List ℕ)
    → s.incoming ≡ xs ++ rest
    → read_exact (length xs) s ≡ (record s { incoming = rest }, ok xs)
unfolding read_exact
read_exact-append s xs rest e =
    let fits : ltb (length (xs ++ rest)) (length xs) ≡ false =
      ground (arith, length-append xs rest) in
    rw (e, fits, take-append xs rest, drop-append xs rest) refl

-- The stream after a request, with what is left to read.
unfoldable pub sent_with : Stream → List ℕ → List ℕ → Stream
sent_with s json rest = record s {
  sent = (s.sent ++ to_be_bytes (u32 (length json))) ++ json;
  incoming = rest;
}

-- A stream that is open, by its fields.
abbrev stream_of : List ℕ → List ℕ → Stream
stream_of sent incoming = record { is_open = true; incoming = incoming; sent = sent }

read_length :
    (sent rest : List ℕ) (n : ℕ)
    → read_exact 4 (stream_of sent (to_be_bytes n ++ rest))
      ≡ (stream_of sent rest, ok (to_be_bytes n))
unfolding to_be_bytes
read_length sent rest n =
    read_exact-append (stream_of sent (to_be_bytes n ++ rest)) (to_be_bytes n) rest refl

exchange_open :
    (utf8 : List ℕ → Bool) (sent json reply rest : List ℕ)
    → length reply < 2 ^ 32
    → utf8 reply ≡ true
    → exchange utf8 json (stream_of sent (to_be_bytes (length reply) ++ (reply ++ rest))) ≡ (
        let after = (sent ++ to_be_bytes (u32 (length json))) ++ json in
        if ltb max_response (length reply)
        then (stream_of after (reply ++ rest), err bridge_protocol)
        else (stream_of after rest, ok reply))
unfolding exchange write_all
exchange_open utf8 sent json reply rest small valid =
    let after = (sent ++ to_be_bytes (u32 (length json))) ++ json in
    rw
      (
        read_length after (reply ++ rest) (length reply),
        from_be_bytes-to_be_bytes (length reply) small,
      )
      (elim (Bool-cases (ltb max_response (length reply))) [
        | inl e ↦ rw e refl
        | inr e ↦
            rw (e, read_exact-append (stream_of after (reply ++ rest)) reply rest refl, valid) refl
      ])

-- On an open stream, a request is sent behind its length, and an answer that stands behind its own
-- length and is UTF-8 of at most 10,000,000 bytes is returned whole, with what follows it left to
-- read; where the length is more, the error is returned and the bytes behind the length are left.
pub exchange_answers :
    (utf8 : List ℕ → Bool) (s : Stream) (json reply rest : List ℕ)
    → s.is_open ≡ true
    → length reply < 2 ^ 32
    → s.incoming ≡ to_be_bytes (length reply) ++ (reply ++ rest)
    → utf8 reply ≡ true
    → exchange utf8 json s ≡ (
        if ltb max_response (length reply)
        then (sent_with s json (reply ++ rest), err bridge_protocol)
        else (sent_with s json rest, ok reply))
unfolding sent_with exchange write_all
exchange_answers utf8 s json reply rest opened small arrives valid =
    simp (opened, arrives) (exchange_open utf8 s.sent json reply rest small valid)
