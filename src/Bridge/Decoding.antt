-- ===== src/Bridge/Decoding.antt =====
-- What the decoder of auto-targeting/rknn-bridge/src/bridge_main.cpp reads from the encoder's characters.
use native.Mathlib.Decide.{dec_lt}
use mathlib.Core.List.{append_assoc}
use autotargeting.Base.{
  ℕ, zero, suc, ◌+◌, ◌-◌, ◌*◌, ◌/◌, ◌%◌, ◌^◌, ◌<◌, ◌≤◌, ◌≡◌, refl, ap, Bool, true, false, ◌&&◌,
  none, some, List, [], ◌∷◌, ◌++◌, ◌==◌, u32, ltb, leb, if◌then◌else◌, length, All, chunks_exact,
  chunks_from, remainder, arith, drop,
}
use autotargeting.Bridge.Base64.{
  base64_encode, base64_decode, decode_from, encode_chunk, encode_chunks, char_at, chars,
  b64_char_value, value_of, padding,
}

abbrev is_read_back : ℕ → Bool
is_read_back i = elim (value_of (char_at i)) [ none ↦ false | some d ↦ d == i ]

unfoldable every_below : (ℕ → Bool) → ℕ → Bool
every_below p zero = true
every_below p (suc n) = every_below p n && p n

every_below_lem : (p : ℕ → Bool) (n i : ℕ) → every_below p n ≡ true → i < n → p i ≡ true
unfolding every_below
every_below_lem p zero i h lt = absurd (omega arith)
every_below_lem p (suc n) i h lt = elim (dec_lt i n) [
  | yes below ↦ every_below_lem p n i (ground arith) below
  | no last ↦ let e : i ≡ n = omega arith in rw e (ground arith)
]

all_read_back : every_below is_read_back 64 ≡ true
unfolding every_below chars char_at b64_char_value value_of
all_read_back = refl

value_of-char_at : (i : ℕ) → i < 64 → value_of (char_at i) ≡ some i
value_of-char_at i h = ground (arith, every_below_lem is_read_back 64 i all_read_back h)

decode_from-char_at :
    (val bits i : ℕ) (cs : List ℕ)
    → i < 64
    → decode_from val bits (char_at i ∷ cs) ≡ (
        let next = u32 (val * 64 + i) in
        let rest = decode_from next (if leb 8 (bits + 6) then bits + 6 - 8 else bits + 6) cs in
        if leb 8 (bits + 6) then next / 2 ^ (bits + 6 - 8) % 256 ∷ rest else rest)
unfolding decode_from
decode_from-char_at val bits i cs h = rw (decode_from, value_of-char_at i h) refl

abbrev after : ℕ → ℕ → ℕ
after val i = u32 (val * 64 + i)

decode_two :
    (val i j : ℕ) (cs : List ℕ)
    → i < 64
    → j < 64
    → decode_from val 0 (char_at i ∷ char_at j ∷ cs)
      ≡ (i * 4 + j / 16) ∷ decode_from (after (after val i) j) 4 cs
decode_two val i j cs hi hj =
    rw
      (decode_from-char_at val 0 i (char_at j ∷ cs) hi, decode_from-char_at (after val i) 6 j cs hj)
      (ap (λ (b : ℕ). b ∷ decode_from (after (after val i) j) 4 cs) (omega arith))

decode_third :
    (val j k : ℕ) (cs : List ℕ)
    → j < 64
    → k < 64
    → decode_from (after val j) 4 (char_at k ∷ cs)
      ≡ (j % 16 * 16 + k / 4) ∷ decode_from (after (after val j) k) 2 cs
decode_third val j k cs hj hk =
    rw (decode_from-char_at (after val j) 4 k cs hk)
      (ap (λ (b : ℕ). b ∷ decode_from (after (after val j) k) 2 cs) (omega arith))

decode_fourth :
    (val k l : ℕ) (cs : List ℕ)
    → k < 64
    → l < 64
    → decode_from (after val k) 2 (char_at l ∷ cs)
      ≡ (k % 4 * 64 + l) ∷ decode_from (after (after val k) l) 0 cs
decode_fourth val k l cs hk hl =
    rw (decode_from-char_at (after val k) 2 l cs hl)
      (ap (λ (b : ℕ). b ∷ decode_from (after (after val k) l) 0 cs) (omega arith))

-- Four characters are three bytes, whatever is left in `val`.
decode_quad :
    (val a b c : ℕ) (cs : List ℕ)
    → a < 256
    → b < 256
    → c < 256
    → (v : ℕ) × (decode_from val 0 (encode_chunk (a ∷ b ∷ c ∷ []) ++ cs)
        ≡ a ∷ b ∷ c ∷ decode_from v 0 cs)
unfolding encode_chunk
decode_quad val a b c cs ha hb hc =
    let t = a * 2 ^ 16 + b * 2 ^ 8 + c in
    let i = t / 2 ^ 18 % 64 in
    let j = t / 2 ^ 12 % 64 in
    let k = t / 2 ^ 6 % 64 in
    let l = t / 2 ^ 0 % 64 in
    let e0 : i * 4 + j / 16 ≡ a = omega arith in
    let e1 : j % 16 * 16 + k / 4 ≡ b = omega arith in
    let e2 : k % 4 * 64 + l ≡ c = omega arith in
    (
      after (after (after (after val i) j) k) l,
      rw
          (
            decode_two val i j (char_at k ∷ char_at l ∷ cs) (omega arith) (omega arith),
            decode_third (after val i) j k (char_at l ∷ cs) (omega arith) (omega arith),
            decode_fourth (after (after val i) j) k l cs (omega arith) (omega arith),
            e0,
            e1,
            e2,
          )
          refl,
    )

decode_padding :
    (val bits : ℕ) (cs : List ℕ) → decode_from val bits (padding ∷ cs) ≡ decode_from val bits cs
unfolding decode_from value_of
decode_padding val bits cs = refl

decode_end : (val bits : ℕ) → decode_from val bits [] ≡ []
unfolding decode_from
decode_end val bits = refl

decode_pair :
    (val a b : ℕ) → a < 256 → b < 256 → decode_from val 0 (encode_chunk (a ∷ b ∷ [])) ≡ a ∷ b ∷ []
unfolding encode_chunk
decode_pair val a b ha hb =
    let t = a * 2 ^ 16 + b * 2 ^ 8 in
    let i = t / 2 ^ 18 % 64 in
    let j = t / 2 ^ 12 % 64 in
    let k = t / 2 ^ 6 % 64 in
    let e0 : i * 4 + j / 16 ≡ a = omega arith in
    let e1 : j % 16 * 16 + k / 4 ≡ b = omega arith in
    rw
      (
        decode_two val i j (char_at k ∷ padding ∷ []) (omega arith) (omega arith),
        decode_third (after val i) j k (padding ∷ []) (omega arith) (omega arith),
        decode_padding (after (after (after val i) j) k) 2 [],
        decode_end (after (after (after val i) j) k) 2,
        e0,
        e1,
      )
      refl

decode_single : (val a : ℕ) → a < 256 → decode_from val 0 (encode_chunk (a ∷ [])) ≡ a ∷ []
unfolding encode_chunk
decode_single val a ha =
    let t = a * 2 ^ 16 in
    let i = t / 2 ^ 18 % 64 in
    let j = t / 2 ^ 12 % 64 in
    let e0 : i * 4 + j / 16 ≡ a = omega arith in
    rw
      (
        decode_two val i j (padding ∷ padding ∷ []) (omega arith) (omega arith),
        decode_padding (after (after val i) j) 4 (padding ∷ []),
        decode_padding (after (after val i) j) 4 [],
        decode_end (after (after val i) j) 4,
        e0,
      )
      refl

abbrev pub IsBytes : List ℕ → Type 0
IsBytes = All (λ (b : ℕ). b < 256)

remainder_step : (a b c : ℕ) (xs : List ℕ) → remainder 3 (a ∷ b ∷ c ∷ xs) ≡ remainder 3 xs
remainder_step a b c xs =
    let e : suc (suc (suc (length xs))) / 3 * 3 ≡ suc (suc (suc (length xs / 3 * 3))) =
      omega arith in
    ap (λ (n : ℕ). drop n (a ∷ b ∷ c ∷ xs)) e

chunks_step :
    (fuel a b c : ℕ) (xs : List ℕ)
    → chunks_from (suc fuel) 3 (a ∷ b ∷ c ∷ xs) ≡ (a ∷ b ∷ c ∷ []) ∷ chunks_from fuel 3 xs
unfolding chunks_from
chunks_step fuel a b c xs =
    let e : ltb (suc (suc (suc (length xs)))) 3 ≡ false = ground arith in rw e refl

decode_encoded :
    (fuel val : ℕ) (xs : List ℕ)
    → length xs ≤ fuel
    → IsBytes xs
    → decode_from val 0 (encode_chunks (chunks_from fuel 3 xs) ++ encode_chunk (remainder 3 xs))
      ≡ xs
unfolding encode_chunks encode_chunk chunks_from
decode_encoded zero val [] h all = decode_end val 0
decode_encoded (suc fuel) val [] h all = decode_end val 0
decode_encoded zero val (a ∷ xs) h all = absurd (omega arith)
decode_encoded (suc fuel) val (a ∷ []) h all = decode_single val a all.0
decode_encoded (suc fuel) val (a ∷ b ∷ []) h all = decode_pair val a b all.0 all.1.0
decode_encoded (suc fuel) val (a ∷ b ∷ c ∷ xs) h all =
    let quads = encode_chunks (chunks_from fuel 3 xs) in
    let tail = encode_chunk (remainder 3 xs) in
    let quad = decode_quad val a b c (quads ++ tail) all.0 all.1.0 all.1.1.0 in
    let ih = decode_encoded fuel quad.0 xs (omega arith) all.1.1.1 in
    rw
      (
        chunks_step fuel a b c xs,
        remainder_step a b c xs,
        append_assoc (encode_chunk (a ∷ b ∷ c ∷ [])) quads tail,
        quad.1,
      )
      (ap (λ (l : List ℕ). a ∷ b ∷ c ∷ l) ih)

-- What the encoder writes for any bytes, the decoder of the other process reads back as these bytes.
pub base64_decode-encode :
    (bytes : List ℕ) → IsBytes bytes → base64_decode (base64_encode bytes) ≡ bytes
unfolding base64_decode base64_encode chunks_exact
base64_decode-encode bytes all = decode_encoded (length bytes) 0 bytes (omega arith) all
