-- ===== src/Str/Hex.antt =====
-- sky_str_to_hex and sky_str_from_hex (sky/src/sky_str.c).
use skysdk.Base.{
  ℕ, ◌+◌, ◌*◌, ◌/◌, ◌%◌, ◌<◌, ◌≤◌, ◌≡◌, refl, sym, ap, ◌∙◌, true, false, ltb, lt→ltb, Option, none,
  some, List, [], ◌∷◌, ◌++◌, length, length-append, ok, arith,
}
use mathlib.Core.List.{append-nil, append_assoc}
use skysdk.Str.{digit, print_byte, to_hex_loop, to_hex, from_hex_loop, from_hex}

-- characters of 7 bits
abbrev pub Ascii : List ℕ → Type 0
Ascii [] = Unit
Ascii (c ∷ cs) = (c < 0x80) × Ascii cs

-- two digits for each
abbrev pub digits : List ℕ → List ℕ
digits [] = []
digits (c ∷ cs) = digit (c / 16) ∷ digit (c % 16) ∷ digits cs

-- sscanf reads two digits
abbrev pub ReadsDigits : (List ℕ → Option ℕ) → Type 0
ReadsDigits scan =
    (a b : ℕ) (rest : List ℕ)
    → a < 16
    → b < 16
    → scan (digit a ∷ digit b ∷ rest) ≡ some (a * 16 + b)

not_less : (a b : ℕ) → b ≤ a → ltb a b ≡ false
not_less a b le = ground (arith, le)

to_hex_loop_lem :
    (hex_len : ℕ) (hex str : List ℕ)
    → Ascii str
    → length hex + 2 * length str ≤ hex_len
    → to_hex_loop hex_len hex str ≡ ok (hex ++ digits str)
unfolding to_hex_loop print_byte
to_hex_loop_lem hex_len hex [] ascii room = ap ok (sym (append-nil hex))
to_hex_loop_lem hex_len hex (c ∷ cs) (small, ascii) room =
    rw (lt→ltb c 0x80 small, not_less hex_len (length hex + 2) (omega (arith, room)))
      (to_hex_loop_lem hex_len (hex ++ digit (c / 16) ∷ digit (c % 16) ∷ []) cs ascii
          (omega (arith, room, length-append hex (digit (c / 16) ∷ digit (c % 16) ∷ [])))
        ∙ ap ok (append_assoc hex (digit (c / 16) ∷ digit (c % 16) ∷ []) (digits cs)))

from_hex_loop_lem :
    (scan : List ℕ → Option ℕ)
    → ReadsDigits scan
    → (str_len : ℕ) (bytes str : List ℕ) (value : Option ℕ) → Ascii bytes
    → length str + length bytes ≤ str_len
    → from_hex_loop scan str_len (length bytes) (digits bytes) value str ≡ ok (str ++ bytes)
unfolding from_hex_loop
from_hex_loop_lem scan reads str_len [] str value ascii room = ap ok (sym (append-nil str))
from_hex_loop_lem scan reads str_len (c ∷ cs) str value (small, ascii) room =
    let byte : (c / 16 * 16 + c % 16) % 256 ≡ c = omega (arith, small) in
    rw
      (
        reads (c / 16) (c % 16) (digits cs) (omega (arith, small)) (omega arith),
        lt→ltb (length str) str_len (omega (arith, room)),
        byte,
      )
      (from_hex_loop_lem scan reads str_len cs (str ++ c ∷ []) (some (c / 16 * 16 + c % 16)) ascii
          (omega (arith, room, length-append str (c ∷ [])))
        ∙ ap ok (append_assoc str (c ∷ []) cs))

length-digits : (str : List ℕ) → length (digits str) ≡ 2 * length str
length-digits [] = omega arith
length-digits (c ∷ cs) = omega (arith, length-digits cs)

-- For characters of 7 bits, fewer than 2^30, a buffer with room for two digits of each, and an
-- sscanf that reads two hexadecimal digits: sky_str_to_hex gives 0 and two digits for each
-- character, and sky_str_from_hex of these gives 0 and the characters, with its index within int.
pub from_hex-to_hex :
    (scan : List ℕ → Option ℕ)
    → ReadsDigits scan
    → (str : List ℕ) (hex_len : ℕ) → Ascii str
    → 2 * length str ≤ hex_len
    → 2 * length str < 0x8000_0000
    → (hex : List ℕ) × (to_hex (some str) true hex_len ≡ ok (0, hex))
      × (length hex ≡ 2 * length str)
      × (from_hex scan (some hex) (2 * length str) true (length str) ≡ ok (0, str))
unfolding to_hex from_hex
from_hex-to_hex scan reads str hex_len ascii room small =
    let bound : ltb (length str * 2) 0x8000_0000 ≡ true =
      lt→ltb (length str * 2) 0x8000_0000 (omega (arith, small)) in
    let half : (2 * length str + 1) / 2 ≡ length str = omega arith in
    (
      digits str,
      rw
          (
            not_less hex_len (length str * 2 % 0x1_0000_0000) (omega (arith, room, small)),
            to_hex_loop_lem hex_len [] str ascii (omega (arith, room)),
          )
          refl,
      length-digits str,
      rw
          (
            not_less (2 * length str) (length str * 2 % 0x1_0000_0000) (omega (arith, small)),
            half,
            bound,
            from_hex_loop_lem scan reads (length str) str [] none ascii (omega arith),
          )
          refl,
    )
