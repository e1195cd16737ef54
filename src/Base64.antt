-- ===== src/Base64.antt =====
-- sky/src/sky_base64.c: the Base64 encoder and decoder, with the table that sky_base64_init fills.
-- Characters and bytes are their codes. A shift by n is a multiplication or division by 2^n, and a
-- mask of the low bits is a remainder.
pub mod Tables
pub mod Blocks
pub mod Padding
pub mod RoundTrip
pub mod Decoding
mod Tests
use skysdk.Base.{
  ℕ, zero, suc, ◌+◌, ◌-◌, ◌*◌, ◌/◌, ◌%◌, ◌==◌, ◌&&◌, ltb, leb, Bool, true, false, Option, none,
  some, List, [], ◌∷◌, ◌++◌, length, take, get_elem?, if◌then◌else◌, Run, ok, fault, ◌>>=◌,
}

-- INT_MAX + 1: where `int i` and `int j` overflow
abbrev pub int_limit : ℕ
int_limit = 0x8000_0000

-- '='
abbrev pub pad_char : ℕ
pad_char = 61

-- 'A' to 'Z', 'a' to 'z', '0' to '9', '+', '/'
unfoldable pub base64_encoding_table : List ℕ
base64_encoding_table =
    65 ∷ 66 ∷ 67 ∷ 68 ∷ 69 ∷ 70 ∷ 71 ∷ 72 ∷ 73 ∷ 74 ∷ 75 ∷ 76 ∷ 77 ∷ 78 ∷ 79 ∷ 80 ∷ 81 ∷ 82 ∷ 83
    ∷ 84 ∷ 85 ∷ 86 ∷ 87 ∷ 88 ∷ 89 ∷ 90 ∷ 97 ∷ 98 ∷ 99 ∷ 100 ∷ 101 ∷ 102 ∷ 103 ∷ 104 ∷ 105 ∷ 106
    ∷ 107 ∷ 108 ∷ 109 ∷ 110 ∷ 111 ∷ 112 ∷ 113 ∷ 114 ∷ 115 ∷ 116 ∷ 117 ∷ 118 ∷ 119 ∷ 120 ∷ 121 ∷ 122
    ∷ 48 ∷ 49 ∷ 50 ∷ 51 ∷ 52 ∷ 53 ∷ 54 ∷ 55 ∷ 56 ∷ 57 ∷ 43 ∷ 47 ∷ []

-- an entry of the table; its callers mask the index to six bits
unfoldable pub encode_char : ℕ → ℕ
unfolding base64_encoding_table
encode_char v = elim (get_elem? base64_encoding_table v) [ none ↦ 0 | some c ↦ c ]

-- the loop of sky_base64_init, from the entry `i` on
abbrev pub fill : List ℕ → (i : ℕ) → (ℕ → ℕ) → ℕ → ℕ
fill [] i table = table
fill (c ∷ cs) i table = fill cs (suc i) (λ d. if d == c then i else table d)

-- base64_decoding_table once sky_base64_init has run
unfoldable pub base64_decoding_table : ℕ → ℕ
unfolding base64_encoding_table
base64_decoding_table = fill base64_encoding_table 0 (λ _. 0)

-- base64_mod_table
unfoldable pub base64_mod_table : ℕ → ℕ
base64_mod_table r = if r == 0 then 0 else if r == 1 then 2 else 1

-- the four characters for `triple`
unfoldable pub quad : (triple : ℕ) → List ℕ → List ℕ
unfolding encode_char
quad triple rest =
    encode_char (triple / 0x40000 % 64)
    ∷ encode_char (triple / 0x1000 % 64)
    ∷ encode_char (triple / 64 % 64)
    ∷ encode_char (triple % 64)
    ∷ rest

-- the loop of sky_base64_encode, over the bytes from `i` on: one behind the last counts as 0
unfoldable pub encode_loop : List ℕ → List ℕ
unfolding quad
encode_loop [] = []
encode_loop (a ∷ []) = quad (a * 0x10000 + 0 * 0x100 + 0) []
encode_loop (a ∷ b ∷ []) = quad (a * 0x10000 + b * 0x100 + 0) []
encode_loop (a ∷ b ∷ c ∷ bytes) = quad (a * 0x10000 + b * 0x100 + c) (encode_loop bytes)

-- `buf[ i ] = c`
abbrev pub put : List ℕ → ℕ → ℕ → List ℕ
put [] i c = []
put (x ∷ xs) zero c = c ∷ xs
put (x ∷ xs) (suc i) c = x ∷ put xs i c

-- the last loop of sky_base64_encode, with `n` rounds left
unfoldable pub pad : (output_length n : ℕ) → (i : ℕ) → List ℕ → List ℕ
pad output_length zero i chars = chars
pad output_length (suc n) i chars =
    pad output_length n (suc i) (put chars (output_length - 1 - i) pad_char)

-- `4 * ( ( input_length + 2 ) / 3 )` on uint32_t
unfoldable pub output_length : ℕ → ℕ
output_length n = 4 * ((n + 2) % 0x1_0000_0000 / 3) % 0x1_0000_0000

-- sky_base64_encode, with the result of sky_mem_alloc as `granted`: NULL without memory, and
-- otherwise the characters and the output length. It faults if the characters overrun the buffer, or
-- if `int j`, which counts them, overflows.
unfoldable pub encode : (granted : Bool) → List ℕ → Run (Option (List ℕ × ℕ))
unfolding encode_loop pad base64_mod_table output_length
encode granted bytes =
    let out = output_length (length bytes) in
    if granted
    then if leb (length (encode_loop bytes)) out && ltb (length (encode_loop bytes)) int_limit
      then ok (some (pad out (base64_mod_table (length bytes % 3)) 0 (encode_loop bytes), out))
      else fault
    else ok none

-- `base64_decoding_table[ i ]`, which has 256 entries
abbrev pub table_at : ℕ → Run ℕ
table_at i = if ltb i 256 then ok (base64_decoding_table i) else fault

-- `data[ i ] == '=' ? 0 & i++ : base64_decoding_table[ (uint8_t) data[ i++ ] ]`
unfoldable pub sextet : ℕ → Run ℕ
unfolding base64_decoding_table
sextet c = if c == pad_char then ok 0 else table_at (c % 256)

-- the loop of sky_base64_decode, with room for `room` more bytes in the result (`*output_length - j`).
-- A read behind the characters is a fault.
unfoldable pub decode_loop : (room : ℕ) → List ℕ → Run (List ℕ)
unfolding sextet
decode_loop room [] = ok []
decode_loop room (a ∷ b ∷ c ∷ d ∷ chars) = do
  sa ← sextet a
  sb ← sextet b
  sc ← sextet c
  sd ← sextet d
  rest ← decode_loop (room - 3) chars
  let triple = sa * 0x40000 + sb * 0x1000 + sc * 64 + sd
  ok (take room (triple / 0x10000 % 256 ∷ triple / 0x100 % 256 ∷ triple % 256 ∷ []) ++ rest)
decode_loop room chars = fault

-- `data[ i ]`
abbrev pub char_at : List ℕ → ℕ → Run ℕ
char_at chars i = elim (get_elem? chars i) [ none ↦ fault | some c ↦ ok c ]

-- `i - n` on uint32_t
abbrev pub minus : ℕ → ℕ → ℕ
minus i n = (i + (0x1_0000_0000 - n)) % 0x1_0000_0000

-- the output length of sky_base64_decode. For an empty input the indices wrap to 2^32 - 1 and 2^32 - 2,
-- and the run faults.
unfoldable pub decoded_length : List ℕ → Run ℕ
decoded_length chars = do
  last ← char_at chars (minus (length chars) 1)
  before ← char_at chars (minus (length chars) 2)
  let all = length chars / 4 * 3
  let less = if last == pad_char then all - 1 else all
  ok (if before == pad_char then less - 1 else less)

-- sky_base64_decode: NULL for a length that is no multiple of 4. It faults if `int i`, which reaches
-- the length, overflows.
unfoldable pub decode : (granted : Bool) → List ℕ → Run (Option (List ℕ × ℕ))
unfolding decoded_length decode_loop
decode granted chars =
    if length chars % 4 == 0
    then (do
      out ← decoded_length chars
      if granted
          then (if ltb (length chars) int_limit
              then (decode_loop out chars >>= λ bytes. ok (some (bytes, out)))
              else fault)
          else ok none)
    else ok none
