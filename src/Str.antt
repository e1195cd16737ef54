-- ===== src/Str.antt =====
-- sky/src/sky_str.c: the copies and comparisons, and the conversions to and from hexadecimal digits. A
-- buffer that is written is given by its size and by what has been written to its front.
pub mod Buffers
pub mod Hex
mod Tests
use skysdk.Base.{
  ℕ, zero, suc, ◌+◌, ◌-◌, ◌*◌, ◌/◌, ◌%◌, ltb, leb, ◌==◌, ◌&&◌, Bool, true, false, Option, none,
  some, List, [], ◌∷◌, ◌++◌, length, take, drop, Str, if◌then◌else◌, Run, ok, fault, ◌>>=◌,
}
use skysdk.Memory.{Memory, alloc}

-- `0` n times
abbrev pub zeros : ℕ → List ℕ
zeros zero = []
zeros (suc n) = 0 ∷ zeros n

-- sky_str_cpy from the buffer `src`: what then stands in the first `count` bytes of `dst`
unfoldable pub cpy : (src : List ℕ) → (count : ℕ) → Run (List ℕ)
cpy src zero = ok []
cpy [] (suc n) = fault
cpy (zero ∷ src) (suc n) = ok (zeros (suc n))
cpy (suc c ∷ src) (suc n) = cpy src n >>= λ rest. ok (suc c ∷ rest)

abbrev upper : ℕ → ℕ
upper c = if leb b'a' c && leb c b'z' then c - 32 else c

-- `sky_str_casecmp( s, t ) == 0`, in the C locale
unfoldable pub case_eq : Str → Str → Bool
case_eq [] [] = true
case_eq [] (b ∷ t) = false
case_eq (a ∷ s) [] = false
case_eq (a ∷ s) (b ∷ t) = upper a == upper b && case_eq s t

-- sky_str_len: strlen cut to 32 bits
unfoldable pub str_len : Str → ℕ
str_len str = length str % 0x1_0000_0000

-- sky_str_cat to a buffer of `size` bytes that holds the string `dst`; `count - 1` is one of uint32_t
unfoldable pub cat : (size : ℕ) → (dst src : Str) → (count : ℕ) → Run Str
cat size dst src count =
    let joined = dst ++ take ((count + 0xffff_ffff) % 0x1_0000_0000) src in
    if ltb (length joined) size then ok joined else fault

-- whether a string starts with another
unfoldable pub starts_with : (str prefix : Str) → Bool
starts_with str [] = true
starts_with [] (b ∷ prefix) = false
starts_with (a ∷ str) (b ∷ prefix) = a == b && starts_with str prefix

-- sky_str_str: what stands from the first occurrence on
unfoldable pub str_str : (haystack needle : Str) → Option Str
unfolding starts_with
str_str [] needle = if starts_with [] needle then some [] else none
str_str (a ∷ haystack) needle =
    if starts_with (a ∷ haystack) needle then some (a ∷ haystack) else str_str haystack needle

-- sky_str_index, for a character that is not NUL: what stands from the first such character on
unfoldable pub index : Str → (c : ℕ) → Option Str
index [] c = none
index (a ∷ s) c = if a == c then some (a ∷ s) else index s c

-- sky_str_rindex, for such a character: what stands from the last one on
unfoldable pub rindex : Str → (c : ℕ) → Option Str
rindex [] c = none
rindex (a ∷ s) c = elim (rindex s c) [
  | some found ↦ some found
  | none ↦ if a == c then some (a ∷ s) else none
]

abbrev pub digit : ℕ → ℕ
digit n = if ltb n 10 then 48 + n else 87 + n

-- `sprintf( buf, "%02x", c )` on a char, which is signed: from 0x80 on it writes eight digits into the
-- four bytes of `buf`
unfoldable pub print_byte : ℕ → Run (ℕ × ℕ)
print_byte c = if ltb c 0x80 then ok (digit (c / 16), digit (c % 16)) else fault

-- the loop of sky_str_to_hex, which has written `hex` to a buffer of `hex_len` bytes
unfoldable pub to_hex_loop : (hex_len : ℕ) → (hex str : List ℕ) → Run (List ℕ)
unfolding print_byte
to_hex_loop hex_len hex [] = ok hex
to_hex_loop hex_len hex (c ∷ cs) = print_byte c >>= λ d.
    if ltb hex_len (length hex + 2) then fault else to_hex_loop hex_len (hex ++ d.0 ∷ d.1 ∷ []) cs

-- what the two conversions return: minus a code, or 0 with what was written
abbrev pub Converted : Type 0
Converted = ℕ × List ℕ

-- sky_str_to_hex; the product is one of uint32_t
unfoldable pub to_hex : (str : Option (List ℕ)) → (hex : Bool) → (hex_len : ℕ) → Run Converted
unfolding to_hex_loop
to_hex none hex hex_len = ok (1, [])
to_hex (some str) false hex_len = ok (2, [])
to_hex (some str) true hex_len =
    if ltb hex_len (length str * 2 % 0x1_0000_0000)
    then ok (2, [])
    else to_hex_loop hex_len [] str >>= λ hex. ok (0, hex)

-- The loop of sky_str_from_hex: `sscanf( ..., "%02x", &value )` is the parameter `scan`, and leaves
-- `value`, which is not set at first, where it reads nothing.
unfoldable pub from_hex_loop :
    (scan : List ℕ → Option ℕ)
    → (str_len : ℕ) → (rounds : ℕ) → (hex : List ℕ) → (value : Option ℕ) → (str : List ℕ)
    → Run (List ℕ)
from_hex_loop scan str_len zero hex value str = ok str
from_hex_loop scan str_len (suc rounds) hex value str =
    let read : Option ℕ = elim (scan hex) [ none ↦ value | some v ↦ some v ] in
    elim read [
      | none ↦ fault
      | some v ↦
          if ltb (length str) str_len
          then from_hex_loop scan str_len rounds (drop 2 hex) (some v) (str ++ v % 256 ∷ [])
          else fault
    ]

-- sky_str_from_hex, with a round for each two of the `hex_len` digits. It faults if `int i`, which rises
-- by 2 in each, overflows.
unfoldable pub from_hex :
    (scan : List ℕ → Option ℕ)
    → (hex : Option (List ℕ)) → (hex_len : ℕ) → (str : Bool) → (str_len : ℕ) → Run Converted
unfolding from_hex_loop
from_hex scan hex hex_len false str_len = ok (1, [])
from_hex scan none hex_len true str_len = ok (2, [])
from_hex scan (some hex) hex_len true str_len =
    if ltb hex_len (str_len * 2 % 0x1_0000_0000)
    then ok (2, [])
    else if ltb ((hex_len + 1) / 2 * 2) 0x8000_0000
    then (from_hex_loop scan str_len ((hex_len + 1) / 2) hex none [] >>= λ str. ok (0, str))
    else fault

-- sky_str_dup, which copies to what sky_mem_alloc gives without a look at it
unfoldable pub dup : Option (List ℕ) → Memory → Run (Option (List ℕ) × Memory)
dup none m = ok (none, m)
dup (some str) m =
    let (granted, m') = alloc m in
    if granted then ok (some str, m') else if ltb 0 (length str) then fault else ok (none, m')
