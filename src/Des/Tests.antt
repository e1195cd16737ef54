-- ===== src/Des/Tests.antt =====
-- A block through the DES functions of sky/src/sky_base64.c, over ciphers that count each byte up.
use skysdk.Base.{
  ℕ, ◌+◌, ◌-◌, ◌%◌, ◌<◌, ◌≤◌, ◌==◌, ◌≡◌, ◌⊎◌, refl, inl, inr, leb, true, false, ◌&&◌, some, List,
  [], ◌∷◌, map, length, length-map, if◌then◌else◌, ok, arith,
}
use skysdk.Base.Int.{negsuc}
use skysdk.Des.{
  Mode, encrypt, decrypt, Ops, Fits, Misfits, Undoes, Documented, encrypt_cbc, decrypt_cbc,
  encrypt_ecb, decrypt_ecb, des_crypt_cbc, des_crypt_ecb,
}
use skysdk.Des.RoundTrip.{RoundTrip, Fails, crypt_lem}

abbrev shift : Mode → List ℕ → List ℕ
shift encrypt = map (λ c. c + 1)
shift decrypt = map (λ c. c - 1)

abbrev cipher : Mode → List ℕ → ℕ × List ℕ
cipher mode buf =
    if length buf % 8 == 0 && leb (length buf) 8192 then (0, shift mode buf) else (3, buf)

abbrev ciphers : Ops
ciphers = record {
  setparity = λ key. key;
  cbc = λ mode key ivec. cipher mode;
  ecb = λ mode key. cipher mode;
}

within : (n : ℕ) → n % 8 ≡ 0 → n ≤ 8192 → (n % 8 == 0 && leb n 8192) ≡ true
within n whole small = ground (arith, whole, small)

beyond : (n : ℕ) → (0 < n % 8) ⊎ (8192 < n) → (n % 8 == 0 && leb n 8192) ≡ false
beyond n (inl broken) = ground (arith, broken)
beyond n (inr long) = ground (arith, long)

length-shift : (mode : Mode) (buf : List ℕ) → length (shift mode buf) ≡ length buf
length-shift encrypt buf = length-map (λ c. c + 1) buf
length-shift decrypt buf = length-map (λ c. c - 1) buf

shift_back : (buf : List ℕ) → shift decrypt (shift encrypt buf) ≡ buf
shift_back [] = refl
shift_back (c ∷ cs) = let same : c + 1 - 1 ≡ c = omega arith in rw (same, shift_back cs) refl

cipher_shifts : (mode : Mode) (buf : List ℕ) → Fits buf → cipher mode buf ≡ (0, shift mode buf)
cipher_shifts mode buf fits = rw (within (length buf) fits.0 fits.1) refl

cipher_undone : (buf : List ℕ) → Fits buf → (cipher decrypt (cipher encrypt buf).1).1 ≡ buf
cipher_undone buf fits =
    let size = length-shift encrypt buf in
    rw
      (
        cipher_shifts encrypt buf fits,
        cipher_shifts decrypt (shift encrypt buf)
            (omega (arith, size, fits.0), omega (arith, size, fits.1)),
      )
      (shift_back buf)

cipher-Undoes : Undoes cipher
cipher-Undoes = (
  λ mode buf fits. (
    rw (cipher_shifts mode buf fits) refl,
    rw (cipher_shifts mode buf fits) (length-shift mode buf),
  ),
  cipher_undone,
  λ mode buf misfits. rw (beyond (length buf) misfits) refl,
)

ciphers-Documented : Documented ciphers
ciphers-Documented = record {
  setparity_law = λ key. refl;
  cbc_law = λ key ivec key_size size. cipher-Undoes;
  ecb_law = λ key size. cipher-Undoes;
}

-- "secret", and a vector that fills eight bytes
abbrev key : List ℕ
key = 115 ∷ 101 ∷ 99 ∷ 114 ∷ 101 ∷ 116 ∷ 0 ∷ []

abbrev vector : List ℕ
vector = 1 ∷ 2 ∷ 3 ∷ 4 ∷ 5 ∷ 6 ∷ 7 ∷ 8 ∷ 0 ∷ []

abbrev block : List ℕ
block = 10 ∷ 20 ∷ 30 ∷ 40 ∷ 50 ∷ 60 ∷ 70 ∷ 80 ∷ []

crypt_lem_example :
    (Fits block
      × RoundTrip
          (λ b. encrypt_cbc ciphers key b vector)
          (λ b. decrypt_cbc ciphers key b vector)
          block
      × RoundTrip
          (λ b. encrypt_ecb ciphers key (some b))
          (λ b. decrypt_ecb ciphers key (some b))
          block)
    ⊎ (Misfits block
        × Fails (negsuc 2) (des_crypt_cbc ciphers key block vector decrypt)
        × (((length block % 8 ≡ 0)
              × Fails (negsuc 2) (des_crypt_ecb ciphers key (some block) decrypt))
            ⊎ ((0 < length block % 8)
                × (des_crypt_ecb ciphers key (some block) decrypt ≡ ok (negsuc 1, block)))))
crypt_lem_example = crypt_lem ciphers ciphers-Documented key tt vector tt block decrypt
