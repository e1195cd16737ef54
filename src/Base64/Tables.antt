-- ===== src/Base64/Tables.antt =====
-- The two tables of sky/src/sky_base64.c.
use skysdk.Base.{
  ℕ, zero, suc, ◌<◌, ◌≡◌, refl, ◌==◌, not, ◌&&◌, Bool, true, false, arith, Bool-cases, inl, inr,
  ltb, ok, ap, ◌%◌,
}
use skysdk.Base64.{pad_char, encode_char, sextet, base64_encoding_table, base64_decoding_table}

-- a test of every number below a bound
below : ℕ → (ℕ → Bool) → Bool
below zero test = true
below (suc n) test = test n && below n test

below_lem : (n : ℕ) (test : ℕ → Bool) (v : ℕ) → below n test ≡ true → v < n → test v ≡ true
unfolding below
below_lem zero test v all lt = absurd (omega arith)
below_lem (suc n) test v all lt = elim (Bool-cases (v == n)) [
  | inl e ↦ let h : v ≡ n = ground arith in rw h (ground arith)
  | inr ne ↦ below_lem n test v (ground arith) (ground arith)
]

undone : ℕ → Bool
undone v = (base64_decoding_table (encode_char v % 256) == v) && not (encode_char v == pad_char)

all_undone : below 64 undone ≡ true
unfolding below undone sextet encode_char base64_encoding_table base64_decoding_table
all_undone = refl

module _ (v : ℕ) (small : v < 64) where
  undone_lem : undone v ≡ true
  undone_lem = below_lem 64 undone v all_undone small

  pub encode_char-pad : (encode_char v == pad_char) ≡ false
  unfolding undone
  encode_char-pad = ground (arith, undone_lem)

  pub sextet-encode_char : sextet (encode_char v) ≡ ok v
  unfolding sextet undone
  sextet-encode_char =
      let found : base64_decoding_table (encode_char v % 256) ≡ v = ground (arith, undone_lem) in
      let within : ltb (encode_char v % 256) 256 ≡ true = ground arith in
      rw (encode_char-pad, within) (ap ok found)
