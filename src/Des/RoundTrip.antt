-- ===== src/Des/RoundTrip.antt =====
-- Decryption undoes encryption (sky/src/sky_base64.c).
use skysdk.Base.{
  ℕ, ◌%◌, ◌<◌, ◌≤◌, ◌==◌, ◌≡◌, ◌⊎◌, refl, ap, ◌∙◌, inl, inr, ltb, true, false, Bool-cases, some,
  List, ◌∷◌, ◌++◌, Str, length, Run, ok, arith,
}
use skysdk.Base.Int.{ℤ, pos, negsuc}
use skysdk.Str.{cpy}
use skysdk.Str.Buffers.{Readable, cpy_returns, cpy_cut}
use skysdk.Des.{
  Mode, encrypt, decrypt, Ops, failed, Fits, Misfits, Undoes, Documented, Crypted, outcome,
  des_crypt_cbc, encrypt_cbc, decrypt_cbc, des_crypt_ecb, encrypt_ecb, decrypt_ecb,
}

-- `there` gives 0 and a text of the same length, of which `back` gives the first one
abbrev pub RoundTrip : (there back : List ℕ → Run Crypted) → List ℕ → Type 0
RoundTrip there back buf =
    (coded : List ℕ) × (there buf ≡ ok (pos 0, coded))
    × (length coded ≡ length buf)
    × (back coded ≡ ok (pos 0, buf))

-- a call that gives `code` and perhaps has changed the buffer
abbrev pub Fails : ℤ → Run Crypted → Type 0
Fails code r = (buf : List ℕ) × (r ≡ ok (code, buf))

granted_outcome : (r : ℕ × List ℕ) → failed r.0 ≡ false → outcome r ≡ (pos 0, r.1)
granted_outcome r done = rw done refl

refused_outcome : (r : ℕ × List ℕ) → failed r.0 ≡ true → outcome r ≡ (negsuc 2, r.1)
refused_outcome r fails = rw fails refl

fit_or_not : (buf : List ℕ) → Fits buf ⊎ Misfits buf
fit_or_not buf = elim (Bool-cases (length buf % 8 == 0)) [
  | inr broken ↦ inr (inl (ground arith))
  | inl whole ↦ elim (Bool-cases (ltb 8192 (length buf))) [
    | inl long ↦ inr (inr (ground arith))
    | inr short ↦ inl (ground arith, ground arith)
  ]
]

module _ (crypt : Mode → List ℕ → ℕ × List ℕ) (law : Undoes crypt) (buf : List ℕ) where
  abbrev coded : List ℕ
  coded = (crypt encrypt buf).1

  coded-Fits : Fits buf → Fits coded
  coded-Fits fits =
      let size = (law.0 encrypt buf fits).1 in
      (omega (arith, fits.0, size), omega (arith, fits.1, size))

  encrypted : Fits buf → outcome (crypt encrypt buf) ≡ (pos 0, coded)
  encrypted fits = granted_outcome (crypt encrypt buf) (law.0 encrypt buf fits).0

  decrypted : Fits buf → outcome (crypt decrypt coded) ≡ (pos 0, buf)
  decrypted fits =
      granted_outcome (crypt decrypt coded) (law.0 decrypt coded (coded-Fits fits)).0
      ∙ ap (λ b. (pos 0, b)) (law.1 buf fits)

  refused : (mode : Mode) → Misfits buf → outcome (crypt mode buf) ≡ (negsuc 2, (crypt mode buf).1)
  refused mode misfits = refused_outcome (crypt mode buf) (law.2 mode buf misfits)

module _ (ops : Ops) (doc : Documented ops) (key : List ℕ) (readable : Readable key 9) where
  copied : (k : List ℕ) × (cpy key 9 ≡ ok k) × (length k ≡ 9)
  copied = cpy_returns key 9 readable

  abbrev key_tmp : List ℕ
  key_tmp = ops.setparity copied.0

  key_size : 8 ≤ length key_tmp
  key_size = omega (arith, doc.setparity_law copied.0, copied.2)

  ecb_run :
      (mode : Mode) (buf : List ℕ)
      → length buf % 8 ≡ 0
      → des_crypt_ecb ops key (some buf) mode ≡ ok (outcome (ops.ecb mode key_tmp buf))
  unfolding des_crypt_ecb
  ecb_run mode buf whole = rw (whole, copied.1) refl

  abbrev ecb : Mode → List ℕ → ℕ × List ℕ
  ecb mode = ops.ecb mode key_tmp

  ecb_law : Undoes ecb
  ecb_law = doc.ecb_law key_tmp key_size

  ecb_round :
      (buf : List ℕ)
      → Fits buf
      → RoundTrip (λ b. encrypt_ecb ops key (some b)) (λ b. decrypt_ecb ops key (some b)) buf
  unfolding encrypt_ecb decrypt_ecb
  ecb_round buf fits =
      let c = coded ecb ecb_law buf in
      (
        c,
        ecb_run encrypt buf fits.0 ∙ ap ok (encrypted ecb ecb_law buf fits),
        (ecb_law.0 encrypt buf fits).1,
        ecb_run decrypt c (coded-Fits ecb ecb_law buf fits).0
            ∙ ap ok (decrypted ecb ecb_law buf fits),
      )

  module _ (ivec : List ℕ) (vector_readable : Readable ivec 9) where
    vector : (v : List ℕ) × (cpy ivec 9 ≡ ok v) × (length v ≡ 9)
    vector = cpy_returns ivec 9 vector_readable

    abbrev cbc : Mode → List ℕ → ℕ × List ℕ
    cbc mode = ops.cbc mode key_tmp vector.0

    cbc_run :
        (mode : Mode) (buf : List ℕ)
        → des_crypt_cbc ops key buf ivec mode ≡ ok (outcome (cbc mode buf))
    unfolding des_crypt_cbc
    cbc_run mode buf = rw (copied.1, vector.1) refl

    cbc_law : Undoes cbc
    cbc_law = doc.cbc_law key_tmp vector.0 key_size (omega (arith, vector.2))

    cbc_round :
        (buf : List ℕ)
        → Fits buf
        → RoundTrip (λ b. encrypt_cbc ops key b ivec) (λ b. decrypt_cbc ops key b ivec) buf
    unfolding encrypt_cbc decrypt_cbc
    cbc_round buf fits =
        let c = coded cbc cbc_law buf in
        (
          c,
          cbc_run encrypt buf ∙ ap ok (encrypted cbc cbc_law buf fits),
          (cbc_law.0 encrypt buf fits).1,
          cbc_run decrypt c ∙ ap ok (decrypted cbc cbc_law buf fits),
        )

    cbc_refused :
        (mode : Mode) (buf : List ℕ)
        → Misfits buf
        → Fails (negsuc 2) (des_crypt_cbc ops key buf ivec mode)
    cbc_refused mode buf misfits =
        ((cbc mode buf).1, cbc_run mode buf ∙ ap ok (refused cbc cbc_law buf mode misfits))

    ecb_refused :
        (mode : Mode) (buf : List ℕ)
        → Misfits buf
        → ((length buf % 8 ≡ 0) × Fails (negsuc 2) (des_crypt_ecb ops key (some buf) mode))
          ⊎ ((0 < length buf % 8) × (des_crypt_ecb ops key (some buf) mode ≡ ok (negsuc 1, buf)))
    unfolding des_crypt_ecb
    ecb_refused mode buf misfits = elim (Bool-cases (length buf % 8 == 0)) [
      | inl whole ↦ inl (
        ground arith,
        (
          (ecb mode buf).1,
          ecb_run mode buf (ground arith) ∙ ap ok (refused ecb ecb_law buf mode misfits),
        ),
      )
      | inr broken ↦ inr (ground arith, rw broken refl)
    ]

    -- Over ciphers that behave as the RPC library documents, and for a key and a vector that can
    -- be read up to a NUL or their ninth byte. For at most 8192 bytes in whole blocks of 8,
    -- sky_des_encrypt_cbc and sky_des_encrypt_ecb give 0 and as many bytes, and
    -- sky_des_decrypt_cbc and sky_des_decrypt_ecb of these give 0 and the bytes. For any others
    -- the functions with a vector give -3; those without give -2 where the last block is not
    -- whole, and leave the bytes as they are, and -3 where there are more than 8192.
    pub crypt_lem :
        (buf : List ℕ) (mode : Mode)
        → (Fits buf
            × RoundTrip (λ b. encrypt_cbc ops key b ivec) (λ b. decrypt_cbc ops key b ivec) buf
            × RoundTrip (λ b. encrypt_ecb ops key (some b)) (λ b. decrypt_ecb ops key (some b)) buf)
          ⊎ (Misfits buf
              × Fails (negsuc 2) (des_crypt_cbc ops key buf ivec mode)
              × (((length buf % 8 ≡ 0) × Fails (negsuc 2) (des_crypt_ecb ops key (some buf) mode))
                  ⊎ ((0 < length buf % 8)
                      × (des_crypt_ecb ops key (some buf) mode ≡ ok (negsuc 1, buf)))))
    crypt_lem buf mode = elim (fit_or_not buf) [
      | inl fits ↦ inl (fits, cbc_round buf fits, ecb_round buf fits)
      | inr misfits ↦ inr (misfits, cbc_refused mode buf misfits, ecb_refused mode buf misfits)
    ]

-- Keys, and vectors, that agree up to a NUL are the same to the functions with a vector.
crypt_cut :
    (ops : Ops) (key ivec : Str) (key_rest key_rest' rest rest' buf : List ℕ) (mode : Mode)
    → des_crypt_cbc ops (key ++ 0 ∷ key_rest) buf (ivec ++ 0 ∷ rest) mode
      ≡ des_crypt_cbc ops (key ++ 0 ∷ key_rest') buf (ivec ++ 0 ∷ rest') mode
unfolding des_crypt_cbc
crypt_cut ops key ivec key_rest key_rest' rest rest' buf mode =
    rw (cpy_cut key key_rest key_rest' 9, cpy_cut ivec rest rest' 9) refl
