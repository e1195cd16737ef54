-- ===== src/Str/Tests.antt =====
-- "Hi" through sky_str_to_hex and sky_str_from_hex (sky/src/sky_str.c), over a reader of two digits.
use skysdk.Base.{
  ℕ, ◌+◌, ◌-◌, ◌*◌, ◌<◌, ◌≡◌, refl, ltb, Option, none, some, List, [], ◌∷◌, ◌++◌, length, true,
  if◌then◌else◌, ok, arith,
}
use skysdk.Str.{digit, to_hex, from_hex, cpy}
use skysdk.Str.Buffers.{Copied, Appended, buffers_lem}
use skysdk.Str.Hex.{ReadsDigits, from_hex-to_hex}

abbrev value_of : ℕ → ℕ
value_of c = if ltb c 58 then c - 48 else c - 87

abbrev scan : List ℕ → Option ℕ
scan [] = none
scan (a ∷ []) = none
scan (a ∷ b ∷ rest) = some (value_of a * 16 + value_of b)

value_of-digit : (n : ℕ) → n < 16 → value_of (digit n) ≡ n
value_of-digit n small = ground (arith, small)

scan-ReadsDigits : ReadsDigits scan
scan-ReadsDigits a b rest sa sb = rw (value_of-digit a sa, value_of-digit b sb) refl

from_hex-to_hex_example :
    (hex : List ℕ) × (to_hex (some (72 ∷ 105 ∷ [])) true 10 ≡ ok (0, hex))
    × (length hex ≡ 2 * length {A = ℕ} (72 ∷ 105 ∷ []))
    × (from_hex scan
          (some hex)
          (2 * length {A = ℕ} (72 ∷ 105 ∷ []))
          true
          (length {A = ℕ} (72 ∷ 105 ∷ []))
        ≡ ok (0, 72 ∷ 105 ∷ []))
from_hex-to_hex_example =
    from_hex-to_hex scan scan-ReadsDigits (72 ∷ 105 ∷ []) 10 (omega arith, (omega arith, tt))
      (omega arith) (omega arith)

-- "ab" behind "x" in a buffer of six bytes
buffers_lem_example :
    Copied (97 ∷ 98 ∷ []) 3 (cpy ((97 ∷ 98 ∷ []) ++ 0 ∷ []) 3)
    × Appended 6 (120 ∷ []) (97 ∷ 98 ∷ []) 3
buffers_lem_example =
    buffers_lem (97 ∷ 98 ∷ []) [] 6 (120 ∷ []) 3 (omega arith, (omega arith, tt)) (omega arith)
      (omega arith) (omega arith)
