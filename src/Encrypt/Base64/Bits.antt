-- ===== src/Encrypt/Base64/Bits.antt =====
-- The masks of Base64 as arithmetic, and the alphabet; each law is a table.
use my_rpc_project_v.Base.{
  ℕ, ◌*◌, ◌/◌, ◌%◌, ◌<◌, ◌≡◌, refl, arith, bit_and, ◌==◌, false, agree_below, agree_below-eq,
  if◌then◌else◌,
}
use my_rpc_project_v.Encrypt.Base64.{
  base64_char, decode_char, pad_char, high_six, next_six, third_six, low_six, first_byte,
  second_byte, third_byte,
}

mask_fc : (x : ℕ) → x < 256 → bit_and x 0xfc ≡ x / 4 * 4
unfolding agree_below
mask_fc x h = agree_below-eq 256 (λ y. bit_and y 0xfc) (λ y. y / 4 * 4) x refl h

mask_03 : (x : ℕ) → x < 256 → bit_and x 0x03 ≡ x % 4
unfolding agree_below
mask_03 x h = agree_below-eq 256 (λ y. bit_and y 0x03) (λ y. y % 4) x refl h

mask_f0 : (x : ℕ) → x < 256 → bit_and x 0xf0 ≡ x / 16 * 16
unfolding agree_below
mask_f0 x h = agree_below-eq 256 (λ y. bit_and y 0xf0) (λ y. y / 16 * 16) x refl h

mask_0f : (x : ℕ) → x < 256 → bit_and x 0x0f ≡ x % 16
unfolding agree_below
mask_0f x h = agree_below-eq 256 (λ y. bit_and y 0x0f) (λ y. y % 16) x refl h

mask_c0 : (x : ℕ) → x < 256 → bit_and x 0xc0 ≡ x / 64 * 64
unfolding agree_below
mask_c0 x h = agree_below-eq 256 (λ y. bit_and y 0xc0) (λ y. y / 64 * 64) x refl h

mask_3f : (x : ℕ) → x < 256 → bit_and x 0x3f ≡ x % 64
unfolding agree_below
mask_3f x h = agree_below-eq 256 (λ y. bit_and y 0x3f) (λ y. y % 64) x refl h

mask_30 : (x : ℕ) → x < 64 → bit_and x 0x30 ≡ x / 16 * 16
unfolding agree_below
mask_30 x h = agree_below-eq 64 (λ y. bit_and y 0x30) (λ y. y / 16 * 16) x refl h

mask_3c : (x : ℕ) → x < 64 → bit_and x 0x3c ≡ x / 4 * 4
unfolding agree_below
mask_3c x h = agree_below-eq 64 (λ y. bit_and y 0x3c) (λ y. y / 4 * 4) x refl h

pub high_six-lt : (a : ℕ) → a < 256 → high_six a < 64
high_six-lt a h = omega (arith, mask_fc a h)

pub next_six-lt : (a b : ℕ) → a < 256 → b < 256 → next_six a b < 64
next_six-lt a b h k = omega (arith, mask_03 a h, mask_f0 b k)

pub third_six-lt : (b c : ℕ) → b < 256 → c < 256 → third_six b c < 64
third_six-lt b c h k = omega (arith, mask_0f b h, mask_c0 c k)

pub low_six-lt : (c : ℕ) → c < 256 → low_six c < 64
low_six-lt c h = omega (arith, mask_3f c h)

pub first_byte-six : (a b : ℕ) → a < 256 → b < 256 → first_byte (high_six a) (next_six a b) ≡ a
first_byte-six a b h k =
    omega
      (arith, mask_fc a h, mask_03 a h, mask_f0 b k, mask_30 (next_six a b) (next_six-lt a b h k))

pub second_byte-six :
    (a b c : ℕ) → a < 256 → b < 256 → c < 256 → second_byte (next_six a b) (third_six b c) ≡ b
second_byte-six a b c h k l = omega (
  arith,
  mask_03 a h,
  mask_f0 b k,
  mask_0f b k,
  mask_c0 c l,
  mask_0f (next_six a b) (omega (arith, next_six-lt a b h k)),
  mask_3c (third_six b c) (third_six-lt b c k l),
)

pub third_byte-six : (b c : ℕ) → b < 256 → c < 256 → third_byte (third_six b c) (low_six c) ≡ c
third_byte-six b c h k = omega (
  arith,
  mask_0f b h,
  mask_c0 c k,
  mask_3f c k,
  mask_03 (third_six b c) (omega (arith, third_six-lt b c h k)),
)

-- The decoding table undoes the alphabet, and '=' is no letter of it.
pub decode_char-base64_char : (v : ℕ) → v < 64 → decode_char (base64_char v) ≡ v
unfolding agree_below decode_char base64_char
decode_char-base64_char v h = agree_below-eq 64 (λ y. decode_char (base64_char y)) (λ y. y) v refl h

pub base64_char-ne-pad : (v : ℕ) → v < 64 → (base64_char v == pad_char) ≡ false
unfolding agree_below base64_char
base64_char-ne-pad v h =
    ground
      (arith, agree_below-eq 64 (λ y. if base64_char y == pad_char then 1 else 0) (λ y. 0) v refl h)
