-- ===== src/Base64/Blocks.antt =====
-- One block of sky/src/sky_base64.c: three bytes, as four characters and back.
use skysdk.Base.{ℕ, ◌+◌, ◌*◌, ◌/◌, ◌%◌, ◌<◌, ◌≡◌, arith}

-- four sixes of bits make the triple they were taken from
pub sextets_lem :
    (t : ℕ)
    → t < 0x1000000
    → t / 0x40000 % 64 * 0x40000 + t / 0x1000 % 64 * 0x1000 + t / 64 % 64 * 64 + t % 64 ≡ t
sextets_lem t small = omega arith

module _ (a b c : ℕ) (sa : a < 256) (sb : b < 256) (sc : c < 256) where
  pub triple_small : a * 0x10000 + b * 0x100 + c < 0x1000000
  triple_small = omega arith

  pub octets_lem :
      ((a * 0x10000 + b * 0x100 + c) / 0x10000 % 256 ≡ a)
      × ((a * 0x10000 + b * 0x100 + c) / 0x100 % 256 ≡ b)
      × ((a * 0x10000 + b * 0x100 + c) % 256 ≡ c)
  octets_lem = (omega arith, omega arith, omega arith)
