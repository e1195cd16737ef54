-- ===== src/Des.antt =====
-- The DES functions of sky/src/sky_base64.c over cbc_crypt, ecb_crypt and des_setparity of the RPC
-- library, which are the parameter `ops`.
pub mod RoundTrip
mod Tests
use skysdk.Base.{
  ℕ, ◌+◌, ◌-◌, ◌%◌, ◌<◌, ◌≤◌, ◌==◌, ◌≡◌, ◌⊎◌, ltb, Bool, true, false, Option, none, some, List, [],
  ◌∷◌, length, if◌then◌else◌, Run, ok, ◌>>=◌,
}
use skysdk.Base.Int.{ℤ, pos, negsuc}
use skysdk.Str.{cpy}

-- DES_ENCRYPT and DES_DECRYPT
pub data Mode : Type 0 where
  encrypt : Mode
  decrypt : Mode

-- The functions give their status and what then stands in the buffer.
pub record Ops : Type 0 where
  pub setparity : (key : List ℕ) → List ℕ
  pub cbc : Mode → (key ivec buf : List ℕ) → ℕ × List ℕ
  pub ecb : Mode → (key buf : List ℕ) → ℕ × List ℕ

-- DES_FAILED, above DESERR_NOHWDEVICE
abbrev pub failed : ℕ → Bool
failed rc = ltb 1 rc

-- whole blocks of 8 bytes, and no more than DES_MAXDATA
abbrev pub Fits : List ℕ → Type 0
Fits buf = (length buf % 8 ≡ 0) × (length buf ≤ 8192)

abbrev pub Misfits : List ℕ → Type 0
Misfits buf = (0 < length buf % 8) ⊎ (8192 < length buf)

-- what the library documents of one of the two, for a key and a vector of 8 bytes or more
abbrev pub Undoes : (Mode → List ℕ → ℕ × List ℕ) → Type 0
Undoes crypt =
    ((mode : Mode) (buf : List ℕ)
      → Fits buf
      → (failed (crypt mode buf).0 ≡ false) × (length (crypt mode buf).1 ≡ length buf))
    × ((buf : List ℕ) → Fits buf → (crypt decrypt (crypt encrypt buf).1).1 ≡ buf)
    × ((mode : Mode) (buf : List ℕ) → Misfits buf → failed (crypt mode buf).0 ≡ true)

pub record Documented (ops : Ops) : Type 0 where
  pub setparity_law : (key : List ℕ) → length (ops.setparity key) ≡ length key
  pub cbc_law :
      (key ivec : List ℕ)
      → 8 ≤ length key
      → 8 ≤ length ivec
      → Undoes (λ mode. ops.cbc mode key ivec)
  pub ecb_law : (key : List ℕ) → 8 ≤ length key → Undoes (λ mode. ops.ecb mode key)

-- what the functions return, and what then stands in `data`
abbrev pub Crypted : Type 0
Crypted = ℤ × List ℕ

abbrev pub outcome : ℕ × List ℕ → Crypted
outcome r = if failed r.0 then (negsuc 2, r.1) else (pos 0, r.1)

module _ (ops : Ops) where
  unfoldable pub des_crypt_cbc : (key buf ivec : List ℕ) → Mode → Run Crypted
  des_crypt_cbc key buf ivec mode = do
    key_tmp ← cpy key 9
    ivec_tmp ← cpy ivec 9
    ok (outcome (ops.cbc mode (ops.setparity key_tmp) ivec_tmp buf))

  -- sky_des_encrypt_cbc
  unfoldable pub encrypt_cbc : (key buf ivec : List ℕ) → Run Crypted
  encrypt_cbc key buf ivec = des_crypt_cbc key buf ivec encrypt

  -- sky_des_decrypt_cbc
  unfoldable pub decrypt_cbc : (key buf ivec : List ℕ) → Run Crypted
  decrypt_cbc key buf ivec = des_crypt_cbc key buf ivec decrypt

  -- `none` is NULL
  unfoldable pub des_crypt_ecb : (key : List ℕ) → (buf : Option (List ℕ)) → Mode → Run Crypted
  des_crypt_ecb key none mode = ok (negsuc 0, [])
  des_crypt_ecb key (some buf) mode =
      if length buf % 8 == 0
      then (do key_tmp ← cpy key 9; ok (outcome (ops.ecb mode (ops.setparity key_tmp) buf)))
      else ok (negsuc 1, buf)

  -- sky_des_encrypt_ecb
  unfoldable pub encrypt_ecb : (key : List ℕ) → (buf : Option (List ℕ)) → Run Crypted
  encrypt_ecb key buf = des_crypt_ecb key buf encrypt

  -- sky_des_decrypt_ecb
  unfoldable pub decrypt_ecb : (key : List ℕ) → (buf : Option (List ℕ)) → Run Crypted
  decrypt_ecb key buf = des_crypt_ecb key buf decrypt
