-- ===== src/Base64/Decoding.antt =====
-- sky_base64_decode of any characters (sky/src/sky_base64.c).
use skysdk.Base.{
  ℕ, zero, suc, ◌+◌, ◌-◌, ◌*◌, ◌/◌, ◌%◌, ◌<◌, ◌≤◌, ◌==◌, ltb, ◌≡◌, ◌⊎◌, refl, ap, ◌∙◌, inl, inr,
  Bool, true, false, Bool-cases, Option, none, some, List, [], ◌∷◌, ◌++◌, length, length-append,
  take, get_elem?, if◌then◌else◌, ok, fault, Returns, returns, arith,
}
use skysdk.Base64.RoundTrip.{Bytes, within_int, take-nil}
use skysdk.Base64.{
  int_limit, minus, base64_decoding_table, pad_char, sextet, decode_loop, char_at, decoded_length,
  decode,
}

abbrev pub pads_of : ℕ → ℕ
pads_of c = if c == pad_char then 1 else 0

-- how many of the last two characters are '='
abbrev pub final_pads : List ℕ → ℕ
final_pads [] = 0
final_pads (a ∷ []) = 0
final_pads (a ∷ b ∷ []) = pads_of a + pads_of b
final_pads (a ∷ b ∷ c ∷ chars) = final_pads (b ∷ c ∷ chars)

append-Bytes : (xs ys : List ℕ) → Bytes xs → Bytes ys → Bytes (xs ++ ys)
append-Bytes [] ys small rest = rest
append-Bytes (x ∷ xs) ys (lt, small) rest = (lt, append-Bytes xs ys small rest)

take-Bytes : (n : ℕ) (xs : List ℕ) → Bytes xs → Bytes (take n xs)
take-Bytes zero xs small = tt
take-Bytes (suc n) [] small = tt
take-Bytes (suc n) (x ∷ xs) (lt, small) = (lt, take-Bytes n xs small)

length-take_three : (n x y z : ℕ) → length (take n (x ∷ y ∷ z ∷ [])) + (n - 3) ≡ n
length-take_three zero x y z = omega arith
length-take_three (suc zero) x y z = omega arith
length-take_three (suc (suc zero)) x y z = omega arith
length-take_three (suc (suc (suc n))) x y z = rw (take-nil n) (omega arith)

-- any character indexes an entry of the table
sextet_lem : (c : ℕ) → (v : ℕ) × (sextet c ≡ ok v)
unfolding sextet
sextet_lem c = elim (Bool-cases (c == pad_char)) [
  | inl pad ↦ (0, rw pad refl)
  | inr other ↦
      let entry : ltb (c % 256) 256 ≡ true = ground arith in
      (base64_decoding_table (c % 256), rw (other, entry) refl)
]

decode_loop_lem :
    (room : ℕ) (chars : List ℕ)
    → length chars % 4 ≡ 0
    → room ≤ length chars / 4 * 3
    → (bytes : List ℕ) × (decode_loop room chars ≡ ok bytes) × (length bytes ≡ room) × Bytes bytes
unfolding decode_loop
decode_loop_lem room [] whole enough = ([], refl, omega (arith, enough), tt)
decode_loop_lem room (a ∷ []) whole enough = absurd (omega (arith, whole))
decode_loop_lem room (a ∷ b ∷ []) whole enough = absurd (omega (arith, whole))
decode_loop_lem room (a ∷ b ∷ c ∷ []) whole enough = absurd (omega (arith, whole))
decode_loop_lem room (a ∷ b ∷ c ∷ d ∷ chars) whole enough =
    let (sa, at_a) = sextet_lem a in
    let (sb, at_b) = sextet_lem b in
    let (sc, at_c) = sextet_lem c in
    let (sd, at_d) = sextet_lem d in
    let triple = sa * 0x40000 + sb * 0x1000 + sc * 64 + sd in
    let three : List ℕ = triple / 0x10000 % 256 ∷ triple / 0x100 % 256 ∷ triple % 256 ∷ [] in
    let (rest, run, size, small) =
      decode_loop_lem (room - 3) chars (omega (arith, whole)) (omega (arith, enough)) in
    (
      take room three ++ rest,
      rw (at_a, at_b, at_c, at_d, run) refl,
      omega (
        arith,
        length-append (take room three) rest,
        size,
        length-take_three room (triple / 0x10000 % 256) (triple / 0x100 % 256) (triple % 256),
      ),
      append-Bytes (take room three) rest
          (take-Bytes room three (omega arith, (omega arith, (omega arith, tt)))) small,
    )

-- the reads of the last two characters
last_two :
    (chars : List ℕ) (n : ℕ)
    → length chars ≡ suc (suc n)
    → (before last : ℕ) × (get_elem? chars (suc n) ≡ some last)
      × (get_elem? chars n ≡ some before)
      × (final_pads chars ≡ pads_of before + pads_of last)
last_two [] n size = absurd (omega (arith, size))
last_two (a ∷ []) n size = absurd (omega (arith, size))
last_two (a ∷ b ∷ []) zero size = (a, b, refl, refl, refl)
last_two (a ∷ b ∷ []) (suc n) size = absurd (omega (arith, size))
last_two (a ∷ b ∷ c ∷ chars) zero size = absurd (omega (arith, size))
last_two (a ∷ b ∷ c ∷ chars) (suc n) size = last_two (b ∷ c ∷ chars) n (omega (arith, size))

abbrev less_pads : (all before last : ℕ) → ℕ
less_pads all before last =
    let less = if last == pad_char then all - 1 else all in
    if before == pad_char then less - 1 else less

less_pads_lem :
    (all before last : ℕ)
    → 2 ≤ all
    → less_pads all before last + (pads_of before + pads_of last) ≡ all
less_pads_lem all before last enough = ground (arith, enough)

read_at : (chars : List ℕ) (i c : ℕ) → get_elem? chars i ≡ some c → char_at chars i ≡ ok c
read_at chars i c found = rw (found, char_at) refl

decoded_length_at :
    (chars : List ℕ) (n before last : ℕ)
    → length chars ≡ suc (suc n)
    → length chars < int_limit
    → get_elem? chars (suc n) ≡ some last
    → get_elem? chars n ≡ some before
    → decoded_length chars ≡ ok (less_pads (length chars / 4 * 3) before last)
unfolding decoded_length
decoded_length_at chars n before last size short at_last at_before =
    let second : minus (length chars) 1 ≡ suc n = omega (arith, size, short) in
    let first : minus (length chars) 2 ≡ n = omega (arith, size, short) in
    rw (second, first, read_at chars (suc n) last at_last, read_at chars n before at_before) refl

decoded_length_lem :
    (chars : List ℕ)
    → 4 ≤ length chars
    → length chars < int_limit
    → (out : ℕ) × (decoded_length chars ≡ ok out) × (out + final_pads chars ≡ length chars / 4 * 3)
decoded_length_lem chars some_quad short =
    let size : length chars ≡ suc (suc (length chars - 2)) = omega (arith, some_quad) in
    let (before, last, at_last, at_before, pads) = last_two chars (length chars - 2) size in
    (
      less_pads (length chars / 4 * 3) before last,
      decoded_length_at chars (length chars - 2) before last size short at_last at_before,
      ap (λ k. less_pads (length chars / 4 * 3) before last + k) pads
          ∙ less_pads_lem (length chars / 4 * 3) before last (omega (arith, some_quad)),
    )

-- the bytes and their number, or NULL without memory
abbrev pub Decoded : (granted : Bool) → List ℕ → Option (List ℕ × ℕ) → Type 0
Decoded granted chars none = granted ≡ false
Decoded granted chars (some (bytes, n)) =
    (granted ≡ true)
    × (n ≡ length bytes)
    × (n + final_pads chars ≡ length chars / 4 * 3)
    × Bytes bytes

decode_quads :
    (granted : Bool) (chars : List ℕ)
    → length chars % 4 ≡ 0
    → 4 ≤ length chars
    → length chars < int_limit
    → Returns (Decoded granted chars) (decode granted chars)
unfolding decode
decode_quads true chars whole some_quad short =
    let (out, run, pads) = decoded_length_lem chars some_quad short in
    let (bytes, loop, size, small) = decode_loop_lem out chars whole (omega (arith, pads)) in
    rw (whole, run, within_int (length chars) short, loop)
      (returns (refl, omega (arith, size), pads, small))
decode_quads false chars whole some_quad short =
    let (out, run, pads) = decoded_length_lem chars some_quad short in
    rw (whole, run) (returns refl)

-- For any characters, fewer than 2^31: if their number is a multiple of 4 and not 0,
-- sky_base64_decode reads the characters and its table, and writes, within bounds and within int,
-- and returns NULL if there is no memory, and otherwise bytes and their number, three for each
-- four characters less the last two characters that are '='. If it is no multiple of 4, it returns
-- NULL; and for an empty input it reads outside the characters, which is a fault.
pub decode_lem :
    (granted : Bool) (chars : List ℕ)
    → length chars < int_limit
    → ((length chars % 4 ≡ 0)
        × (0 < length chars)
        × Returns (Decoded granted chars) (decode granted chars))
      ⊎ ((0 < length chars % 4) × (decode granted chars ≡ ok none))
      ⊎ ((chars ≡ []) × (decode granted chars ≡ fault))
unfolding decode decoded_length
decode_lem granted [] short = inr (inr (refl, refl))
decode_lem granted (c ∷ chars) short = elim (Bool-cases (length (c ∷ chars) % 4 == 0)) [
  | inl whole ↦
      let quads : length (c ∷ chars) % 4 ≡ 0 = ground arith in
      inl (quads, omega arith, decode_quads granted (c ∷ chars) quads (omega (arith, quads)) short)
  | inr broken ↦ inr (inl (ground arith, rw broken refl))
]
