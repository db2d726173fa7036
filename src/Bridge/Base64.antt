-- ===== src/Bridge/Base64.antt =====
-- `base64_encode` of auto-targeting/crates/cv-inference/src/bridge_client.rs, and `base64_decode` of
-- auto-targeting/rknn-bridge/src/bridge_main.cpp, which reads what it writes. A character is its code.
use autotargeting.Base.{
  ℕ, ◌+◌, ◌-◌, ◌*◌, ◌/◌, ◌%◌, ◌^◌, Bool, ◌&&◌, ◌||◌, Option, none, some, List, [], ◌∷◌, ◌++◌, ◌==◌,
  leb, if◌then◌else◌, get_elem?, range_from, chunks_exact, remainder, u32,
}

-- The alphabet: capitals, small letters, digits, plus and slash.
unfoldable pub chars : List ℕ
chars = range_from 65 26 ++ (range_from 97 26 ++ (range_from 48 10 ++ (43 ∷ 47 ∷ [])))

-- `CHARS[i]`, with `i` below 64.
unfoldable pub char_at : ℕ → ℕ
char_at i = elim (get_elem? chars i) [ none ↦ 0 | some c ↦ c ]

abbrev pub padding : ℕ
padding = 61

-- `CHARS[((triple >> k) & 0x3F) as usize]`.
abbrev pub sextet : ℕ → ℕ → ℕ
sextet triple k = char_at (triple / 2 ^ k % 64)

-- The bytes of a chunk do not overlap in `triple`, so that `|` is a sum.
unfoldable pub encode_chunk : List ℕ → List ℕ
encode_chunk (b0 ∷ b1 ∷ b2 ∷ []) =
    let triple = b0 * 2 ^ 16 + b1 * 2 ^ 8 + b2 in
    sextet triple 18 ∷ sextet triple 12 ∷ sextet triple 6 ∷ sextet triple 0 ∷ []
encode_chunk (b0 ∷ b1 ∷ []) =
    let triple = b0 * 2 ^ 16 + b1 * 2 ^ 8 in
    sextet triple 18 ∷ sextet triple 12 ∷ sextet triple 6 ∷ padding ∷ []
encode_chunk (b0 ∷ []) =
    let triple = b0 * 2 ^ 16 in sextet triple 18 ∷ sextet triple 12 ∷ padding ∷ padding ∷ []
encode_chunk chunk = []

unfoldable pub encode_chunks : List (List ℕ) → List ℕ
encode_chunks [] = []
encode_chunks (c ∷ cs) = encode_chunk c ++ encode_chunks cs

unfoldable pub base64_encode : List ℕ → List ℕ
base64_encode bytes = encode_chunks (chunks_exact 3 bytes) ++ encode_chunk (remainder 3 bytes)

-- `b64_char_value`; none for its -1.
unfoldable pub b64_char_value : ℕ → Option ℕ
b64_char_value c =
    if leb 65 c && leb c 90
    then some (c - 65)
    else if leb 97 c && leb c 122
    then some (c - 97 + 26)
    else if leb 48 c && leb c 57
    then some (c - 48 + 52)
    else if c == 43
    then some 62
    else if c == 47
    then some 63
    else none

-- What the decoder skips: padding, the ends of lines, blanks.
abbrev pub is_skipped : ℕ → Bool
is_skipped c = (c == padding) || (c == 10) || (c == 13) || (c == 32)

-- The value of a character; none where the loop goes on with the next one.
unfoldable pub value_of : ℕ → Option ℕ
value_of c = if is_skipped c then none else b64_char_value c

-- The loop over the characters. `val` is the pattern of 32 bits, `bits` is `valb` + 8.
unfoldable pub decode_from : (val bits : ℕ) → List ℕ → List ℕ
decode_from val bits [] = []
decode_from val bits (c ∷ cs) = elim (value_of c) [
  | none ↦ decode_from val bits cs
  | some d ↦
      let next = u32 (val * 64 + d) in
      let is_full = leb 8 (bits + 6) in
      let rest = decode_from next (if is_full then bits + 6 - 8 else bits + 6) cs in
      if is_full then next / 2 ^ (bits + 6 - 8) % 256 ∷ rest else rest
]

unfoldable pub base64_decode : List ℕ → List ℕ
base64_decode = decode_from 0 0
