-- ===== src/Base64/Tests.antt =====
-- Runs of the encoder and the decoder of sky/src/sky_base64.c.
use skysdk.Base.{
  ℕ, ◌%◌, ◌<◌, ◌⊎◌, none, fault, Returns, ◌≡◌, true, some, List, [], ◌∷◌, length, ok, arith,
}
use skysdk.Base64.{encode, decode}
use skysdk.Base64.Padding.{encoded}
use skysdk.Base64.Decoding.{Decoded, decode_lem}
use skysdk.Base64.RoundTrip.{encode_lem, decode-encode}

encode_lem_example :
    encode true (77 ∷ 97 ∷ []) ≡ ok (some (encoded (77 ∷ 97 ∷ []), length (encoded (77 ∷ 97 ∷ []))))
encode_lem_example = encode_lem (77 ∷ 97 ∷ []) (omega arith)

decode-encode_example :
    (chars : List ℕ) × (n : ℕ) × (encode true (77 ∷ 97 ∷ 110 ∷ 255 ∷ []) ≡ ok (some (chars, n)))
    × (n ≡ length chars)
    × (decode true chars
        ≡ ok (some (77 ∷ 97 ∷ 110 ∷ 255 ∷ [], length {A = ℕ} (77 ∷ 97 ∷ 110 ∷ 255 ∷ []))))
decode-encode_example =
    decode-encode 77 (97 ∷ 110 ∷ 255 ∷ [])
      (omega arith, (omega arith, (omega arith, (omega arith, tt)))) (omega arith)

-- "=?Q=", which no encoder gives
abbrev junk : List ℕ
junk = 61 ∷ 63 ∷ 81 ∷ 61 ∷ []

decode_lem_example :
    ((length junk % 4 ≡ 0) × (0 < length junk) × Returns (Decoded true junk) (decode true junk))
    ⊎ ((0 < length junk % 4) × (decode true junk ≡ ok none))
    ⊎ ((junk ≡ []) × (decode true junk ≡ fault))
decode_lem_example = decode_lem true junk (omega arith)
