-- ===== src/Base64/RoundTrip.antt =====
-- sky_base64_encode and sky_base64_decode (sky/src/sky_base64.c) as wholes.
use mathlib.Core.Path.{subst}
use skysdk.Base.{
  ℕ, zero, suc, ◌+◌, ◌-◌, ◌*◌, ◌/◌, ◌%◌, ◌<◌, ◌≡◌, ◌≢◌, refl, ap, ◌==◌, ltb, leb, not, true, false,
  some, List, [], ◌∷◌, length, take, if◌then◌else◌, ok, arith, inl, inr, Bool-cases,
}
use skysdk.Base64.{
  int_limit, minus, pad, base64_mod_table, encode_char, sextet, encode_loop, encode, decode,
  decode_loop, char_at, decoded_length, output_length,
}
use skysdk.Base64.Tables.{sextet-encode_char}
use skysdk.Base64.Blocks.{sextets_lem, triple_small, octets_lem}
use skysdk.Base64.Padding.{encoded, length-encoded, length-encode_loop, padded_lem, ending_lem}

-- each a byte
abbrev pub Bytes : List ℕ → Type 0
Bytes [] = Unit
Bytes (x ∷ xs) = (x < 256) × Bytes xs

-- from here on sky_base64_encode overflows `int j`
abbrev pub input_limit : ℕ
input_limit = 0x5fff_fffe

pub within_int : (n : ℕ) → n < int_limit → ltb n int_limit ≡ true
within_int n small = ground arith

leb_refl : (n : ℕ) → leb n n ≡ true
leb_refl n = ground arith

pub take-nil : (n : ℕ) → take {A = ℕ} n [] ≡ []
take-nil zero = refl
take-nil (suc n) = refl

-- For fewer than 1610612734 bytes, from where on 'int j' overflows, and with memory,
-- sky_base64_encode stays within its buffer and within int, and returns four characters for each
-- three bytes, with '=' in the place of what one or two last bytes do not fill, and the number of
-- the characters.
pub encode_lem :
    (bytes : List ℕ)
    → length bytes < input_limit
    → encode true bytes ≡ ok (some (encoded bytes, length (encoded bytes)))
unfolding encode output_length
encode_lem bytes short =
    let out : output_length (length bytes) ≡ length (encoded bytes) =
      omega (arith, length-encoded bytes) in
    let same : length (encode_loop bytes) ≡ length (encoded bytes) =
      omega (arith, length-encoded bytes, length-encode_loop bytes) in
    let fits : leb (length (encoded bytes)) (length (encoded bytes)) ≡ true =
      leb_refl (length (encoded bytes)) in
    let counted : ltb (length (encoded bytes)) int_limit ≡ true =
      within_int (length (encoded bytes)) (omega (arith, short, length-encoded bytes)) in
    rw (out, same, fits, counted)
      (ap (λ c. ok (some (c, length (encoded bytes))))
        (subst
          (λ n. pad n (base64_mod_table (length bytes % 3)) 0 (encode_loop bytes) ≡ encoded bytes)
          same (padded_lem bytes)))

six : (v : ℕ) → v < 64 → sextet (encode_char v) ≡ ok v
six v small = sextet-encode_char v small

decode_loop_lem :
    (bytes : List ℕ) → Bytes bytes → decode_loop (length bytes) (encoded bytes) ≡ ok bytes
unfolding decode_loop
decode_loop_lem [] small = refl
decode_loop_lem (a ∷ []) (sa, u) =
    rw
      (
        six (a * 0x10000 / 0x40000 % 64) (omega arith),
        six (a * 0x10000 / 0x1000 % 64) (omega arith),
      )
      (ap (λ x. ok (x ∷ [])) (omega arith))
decode_loop_lem (a ∷ b ∷ []) (sa, (sb, u)) =
    let t = a * 0x10000 + b * 0x100 in
    let first : (t / 0x40000 % 64 * 0x40000 + t / 0x1000 % 64 * 0x1000 + t / 64 % 64 * 64 + 0)
          / 0x10000
          % 256
        ≡ a =
      omega arith in
    let second : (t / 0x40000 % 64 * 0x40000 + t / 0x1000 % 64 * 0x1000 + t / 64 % 64 * 64 + 0)
          / 0x100
          % 256
        ≡ b =
      omega arith in
    rw
      (
        six (t / 0x40000 % 64) (omega arith),
        six (t / 0x1000 % 64) (omega arith),
        six (t / 64 % 64) (omega arith),
        first,
        second,
      )
      refl
decode_loop_lem (a ∷ b ∷ c ∷ bytes) (sa, (sb, (sc, rest))) =
    let t = a * 0x10000 + b * 0x100 + c in
    let whole = sextets_lem t (triple_small a b c sa sb sc) in
    let (oa, ob, oc) = octets_lem a b c sa sb sc in
    let fewer : suc (suc (suc (length bytes))) - 3 ≡ length bytes = omega arith in
    rw
      (
        six (t / 0x40000 % 64) (omega arith),
        six (t / 0x1000 % 64) (omega arith),
        six (t / 64 % 64) (omega arith),
        six (t % 64) (omega arith),
        whole,
        oa,
        ob,
        oc,
        fewer,
        decode_loop_lem bytes rest,
        take-nil (length bytes),
      )
      refl

thirds_lem :
    (n l : ℕ)
    → 0 < n
    → l ≡ 4 * ((n + 2) / 3)
    → (if n % 3 == 1
        then (if not (n % 3 == 0) then l / 4 * 3 - 1 else l / 4 * 3) - 1
        else (if not (n % 3 == 0) then l / 4 * 3 - 1 else l / 4 * 3))
      ≡ n
thirds_lem n l positive size = elim (Bool-cases (n % 3 == 1)) [
  | inl one ↦
      let r : n % 3 ≡ 1 = ground arith in
      let nonzero : (n % 3 == 0) ≡ false = ground arith in
      rw (one, nonzero) (omega (arith, r, size))
  | inr other ↦ elim (Bool-cases (n % 3 == 0)) [
    | inl z ↦ let r : n % 3 ≡ 0 = ground arith in rw (other, z) (omega (arith, r, size))
    | inr nonzero ↦
        let not_one : n % 3 ≢ 1 = ground arith in
        let not_zero : n % 3 ≢ 0 = ground arith in
        rw (other, nonzero) (omega (arith, not_one, not_zero, size))
  ]
]

decoded_length_lem :
    (x : ℕ) (bytes : List ℕ)
    → length (x ∷ bytes) < input_limit
    → decoded_length (encoded (x ∷ bytes)) ≡ ok (length (x ∷ bytes))
unfolding decoded_length
decoded_length_lem x bytes short =
    let e = ending_lem x bytes in
    let size = length-encoded (x ∷ bytes) in
    let last_index : minus (length (encoded (x ∷ bytes))) 1 ≡ suc e.position =
      omega (arith, e.all, size, short) in
    let before_index : minus (length (encoded (x ∷ bytes))) 2 ≡ e.position =
      omega (arith, e.all, size, short) in
    rw (last_index, before_index, e.last_at, e.before_at, e.last_pad, e.before_pad, char_at)
      (ap ok (thirds_lem (length (x ∷ bytes)) (length (encoded (x ∷ bytes))) (omega arith) size))

-- For one or more bytes, fewer than 1610612734, from where on sky_base64_encode overflows an int,
-- and with memory: sky_base64_encode returns characters and their number, and sky_base64_decode of
-- them returns the bytes and their number.
pub decode-encode :
    (x : ℕ) (bytes : List ℕ)
    → Bytes (x ∷ bytes)
    → length (x ∷ bytes) < input_limit
    → (chars : List ℕ) × (n : ℕ) × (encode true (x ∷ bytes) ≡ ok (some (chars, n)))
      × (n ≡ length chars)
      × (decode true chars ≡ ok (some (x ∷ bytes, length (x ∷ bytes))))
unfolding decode
decode-encode x bytes small short =
    let size = length-encoded (x ∷ bytes) in
    let fours : (length (encoded (x ∷ bytes)) % 4 == 0) ≡ true = ground (arith, size) in
    let counted : ltb (length (encoded (x ∷ bytes))) int_limit ≡ true =
      within_int (length (encoded (x ∷ bytes))) (omega (arith, size, short)) in
    (
      encoded (x ∷ bytes),
      length (encoded (x ∷ bytes)),
      encode_lem (x ∷ bytes) short,
      refl,
      rw (fours, decoded_length_lem x bytes short, counted, decode_loop_lem (x ∷ bytes) small) refl,
    )
