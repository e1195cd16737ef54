-- ===== src/Base64/Padding.antt =====
-- The characters that sky_base64_encode (sky/src/sky_base64.c) leaves, and how they end.
use skysdk.Base.{
  ℕ, zero, suc, ◌+◌, ◌-◌, ◌*◌, ◌/◌, ◌%◌, ◌≤◌, ◌≡◌, refl, ap, ◌∙◌, ◌==◌, not, some, List, [], ◌∷◌,
  length, get_elem?, arith,
}
use skysdk.Base64.{pad_char, encode_char, quad, encode_loop, put, pad, base64_mod_table}
use skysdk.Base64.Tables.{encode_char-pad}

-- Each three bytes as four characters; behind one or two last bytes, two or one '='.
abbrev pub encoded : List ℕ → List ℕ
encoded [] = []
encoded (a ∷ []) =
    encode_char (a * 0x10000 / 0x40000 % 64)
    ∷ encode_char (a * 0x10000 / 0x1000 % 64)
    ∷ pad_char
    ∷ pad_char
    ∷ []
encoded (a ∷ b ∷ []) =
    encode_char ((a * 0x10000 + b * 0x100) / 0x40000 % 64)
    ∷ encode_char ((a * 0x10000 + b * 0x100) / 0x1000 % 64)
    ∷ encode_char ((a * 0x10000 + b * 0x100) / 64 % 64)
    ∷ pad_char
    ∷ []
encoded (a ∷ b ∷ c ∷ bytes) =
    encode_char ((a * 0x10000 + b * 0x100 + c) / 0x40000 % 64)
    ∷ encode_char ((a * 0x10000 + b * 0x100 + c) / 0x1000 % 64)
    ∷ encode_char ((a * 0x10000 + b * 0x100 + c) / 64 % 64)
    ∷ encode_char ((a * 0x10000 + b * 0x100 + c) % 64)
    ∷ encoded bytes

pub length-encode_loop :
    (bytes : List ℕ) → length (encode_loop bytes) ≡ 4 * ((length bytes + 2) / 3)
unfolding encode_loop quad
length-encode_loop [] = refl
length-encode_loop (a ∷ []) = refl
length-encode_loop (a ∷ b ∷ []) = refl
length-encode_loop (a ∷ b ∷ c ∷ bytes) = omega (arith, length-encode_loop bytes)

pub length-encoded : (bytes : List ℕ) → length (encoded bytes) ≡ 4 * ((length bytes + 2) / 3)
length-encoded [] = refl
length-encoded (a ∷ []) = refl
length-encoded (a ∷ b ∷ []) = refl
length-encoded (a ∷ b ∷ c ∷ bytes) = omega (arith, length-encoded bytes)

-- the padding does not reach the characters of an earlier block
pad_skip :
    (l n i a b c d : ℕ) (xs : List ℕ)
    → i + n ≤ 2
    → 2 ≤ l
    → pad (suc (suc (suc (suc l)))) n i (a ∷ b ∷ c ∷ d ∷ xs) ≡ a ∷ b ∷ c ∷ d ∷ pad l n i xs
unfolding pad
pad_skip l zero i a b c d xs few long = refl
pad_skip l (suc n) i a b c d xs few long =
    let e : suc (suc (suc (suc l))) - 1 - i ≡ suc (suc (suc (suc (l - 1 - i)))) = omega arith in
    rw e (pad_skip l n (suc i) a b c d (put xs (l - 1 - i) pad_char) (omega arith) long)

mod_small : (r : ℕ) → base64_mod_table r ≤ 2
unfolding base64_mod_table
mod_small r = ground arith

few_lem : (r : ℕ) → 0 + base64_mod_table r ≤ 2
few_lem r = omega (arith, mod_small r)

pub padded_lem :
    (bytes : List ℕ)
    → pad (length (encode_loop bytes)) (base64_mod_table (length bytes % 3)) 0 (encode_loop bytes)
      ≡ encoded bytes
unfolding pad encode_loop quad base64_mod_table
padded_lem [] = refl
padded_lem (a ∷ []) = let e : a * 0x10000 + 0 * 0x100 + 0 ≡ a * 0x10000 = omega arith in rw e refl
padded_lem (a ∷ b ∷ []) =
    let e : a * 0x10000 + b * 0x100 + 0 ≡ a * 0x10000 + b * 0x100 = omega arith in rw e refl
padded_lem (a ∷ b ∷ c ∷ []) = refl
padded_lem (a ∷ b ∷ c ∷ x ∷ bytes) =
    let t = a * 0x10000 + b * 0x100 + c in
    let tail = x ∷ bytes in
    let same : suc (suc (suc (length tail))) % 3 ≡ length tail % 3 = omega arith in
    rw same (
      pad_skip (length (encode_loop tail)) (base64_mod_table (length tail % 3)) 0
        (encode_char (t / 0x40000 % 64)) (encode_char (t / 0x1000 % 64)) (encode_char (t / 64 % 64))
        (encode_char (t % 64)) (encode_loop tail) (few_lem (length tail % 3))
        (omega (arith, length-encode_loop tail))
      ∙ ap
          (λ r.
            encode_char (t / 0x40000 % 64)
            ∷ encode_char (t / 0x1000 % 64)
            ∷ encode_char (t / 64 % 64)
            ∷ encode_char (t % 64)
            ∷ r)
          (padded_lem (x ∷ bytes)))

-- the last two characters tell how many bytes the last block holds
pub record Ending (bytes : List ℕ) : Type 0 where
  pub before : ℕ
  pub last : ℕ
  pub position : ℕ
  pub all : length (encoded bytes) ≡ suc (suc position)
  pub last_at : get_elem? (encoded bytes) (suc position) ≡ some last
  pub before_at : get_elem? (encoded bytes) position ≡ some before
  pub last_pad : (last == pad_char) ≡ not (length bytes % 3 == 0)
  pub before_pad : (before == pad_char) ≡ (length bytes % 3 == 1)

pub ending_lem : (x : ℕ) (bytes : List ℕ) → Ending (x ∷ bytes)
ending_lem a [] = record {
  before = pad_char;
  last = pad_char;
  position = 2;
  all = refl;
  last_at = refl;
  before_at = refl;
  last_pad = refl;
  before_pad = refl;
}
ending_lem a (b ∷ []) = record {
  before = encode_char ((a * 0x10000 + b * 0x100) / 64 % 64);
  last = pad_char;
  position = 2;
  all = refl;
  last_at = refl;
  before_at = refl;
  last_pad = refl;
  before_pad = encode_char-pad ((a * 0x10000 + b * 0x100) / 64 % 64) (omega arith);
}
ending_lem a (b ∷ c ∷ []) = record {
  before = encode_char ((a * 0x10000 + b * 0x100 + c) / 64 % 64);
  last = encode_char ((a * 0x10000 + b * 0x100 + c) % 64);
  position = 2;
  all = refl;
  last_at = refl;
  before_at = refl;
  last_pad = encode_char-pad ((a * 0x10000 + b * 0x100 + c) % 64) (omega arith);
  before_pad = encode_char-pad ((a * 0x10000 + b * 0x100 + c) / 64 % 64) (omega arith);
}
ending_lem a (b ∷ c ∷ x ∷ bytes) =
    let e = ending_lem x bytes in
    let same : suc (suc (suc (length (x ∷ bytes)))) % 3 ≡ length (x ∷ bytes) % 3 = omega arith in
    record {
      before = e.before;
      last = e.last;
      position = suc (suc (suc (suc e.position)));
      all = ap (λ n. suc (suc (suc (suc n)))) e.all;
      last_at = e.last_at;
      before_at = e.before_at;
      last_pad = rw same e.last_pad;
      before_pad = rw same e.before_pad;
    }
