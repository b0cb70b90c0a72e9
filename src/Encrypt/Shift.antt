-- ===== src/Encrypt/Shift.antt =====
-- ShiftEncrypt and ShiftDecrypt of rpc_src/encrypt/aes_encrypt.cpp. Their callers pass a key of 32
-- or 40 bytes; with no key C++ leaves `i % key.size()` undefined, and here the key byte is 0.
use my_rpc_project_v.Base.{
  ℕ, zero, suc, ◌+◌, ◌-◌, ◌%◌, ◌<◌, ◌≡◌, ap₂, refl, arith, [], ◌∷◌, Bytes, IsBytes, length, get_or,
}

-- key[i % key.size()]
unfoldable pub key_byte : Bytes → ℕ → ℕ
key_byte key i = get_or key (i % length key) 0

-- The loops from index `i` on.
unfoldable pub shift_encrypt_from : ℕ → Bytes → Bytes → Bytes
shift_encrypt_from i [] key = []
shift_encrypt_from i (c ∷ cs) key =
    ((c + key_byte key i + i % 256) % 256) ∷ shift_encrypt_from (i + 1) cs key

-- `c - k - shift + 512` is never negative on unsigned chars.
unfoldable pub shift_decrypt_from : ℕ → Bytes → Bytes → Bytes
shift_decrypt_from i [] key = []
shift_decrypt_from i (c ∷ cs) key =
    ((c + 512 - key_byte key i - i % 256) % 256) ∷ shift_decrypt_from (i + 1) cs key

unfoldable pub shift_encrypt : Bytes → Bytes → Bytes
shift_encrypt input key = shift_encrypt_from 0 input key

unfoldable pub shift_decrypt : Bytes → Bytes → Bytes
shift_decrypt input key = shift_decrypt_from 0 input key

get_or-lt : (key : Bytes) (i : ℕ) → IsBytes key → get_or key i 0 < 256
get_or-lt [] i h = omega arith
get_or-lt (k ∷ key) zero h = h.0
get_or-lt (k ∷ key) (suc i) h = get_or-lt key i h.1

key_byte-lt : (key : Bytes) (i : ℕ) → IsBytes key → key_byte key i < 256
unfolding key_byte
key_byte-lt key i h = get_or-lt key (i % length key) h

module _ (key : Bytes) (hk : IsBytes key) where
  decrypt-encrypt_from :
      (i : ℕ) (xs : Bytes)
      → IsBytes xs
      → shift_decrypt_from i (shift_encrypt_from i xs key) key ≡ xs
  unfolding shift_decrypt_from shift_encrypt_from
  decrypt-encrypt_from i [] h = refl
  decrypt-encrypt_from i (x ∷ xs) h =
      ap₂ ◌∷◌ (omega (arith, h.0, key_byte-lt key i hk)) (decrypt-encrypt_from (i + 1) xs h.1)

  encrypt-decrypt_from :
      (i : ℕ) (xs : Bytes)
      → IsBytes xs
      → shift_encrypt_from i (shift_decrypt_from i xs key) key ≡ xs
  unfolding shift_decrypt_from shift_encrypt_from
  encrypt-decrypt_from i [] h = refl
  encrypt-decrypt_from i (x ∷ xs) h =
      ap₂ ◌∷◌ (omega (arith, h.0, key_byte-lt key i hk)) (encrypt-decrypt_from (i + 1) xs h.1)

-- Under a key of bytes the two ciphers undo each other, in both orders, on any bytes.
pub shift_inverse :
    (key xs : Bytes)
    → IsBytes key
    → IsBytes xs
    → (shift_decrypt (shift_encrypt xs key) key ≡ xs)
      × (shift_encrypt (shift_decrypt xs key) key ≡ xs)
unfolding shift_decrypt shift_encrypt
shift_inverse key xs hk h = (decrypt-encrypt_from key hk 0 xs h, encrypt-decrypt_from key hk 0 xs h)

encrypt_from-IsBytes : (i : ℕ) (xs key : Bytes) → IsBytes (shift_encrypt_from i xs key)
unfolding shift_encrypt_from
encrypt_from-IsBytes i [] key = tt
encrypt_from-IsBytes i (x ∷ xs) key = (omega arith, encrypt_from-IsBytes (i + 1) xs key)

length-encrypt_from : (i : ℕ) (xs key : Bytes) → length (shift_encrypt_from i xs key) ≡ length xs
unfolding shift_encrypt_from
length-encrypt_from i [] key = refl
length-encrypt_from i (x ∷ xs) key = omega (arith, length-encrypt_from (i + 1) xs key)

pub shift_encrypt-IsBytes : (xs key : Bytes) → IsBytes (shift_encrypt xs key)
unfolding shift_encrypt
shift_encrypt-IsBytes xs key = encrypt_from-IsBytes 0 xs key

pub length-shift_encrypt : (xs key : Bytes) → length (shift_encrypt xs key) ≡ length xs
unfolding shift_encrypt
length-shift_encrypt xs key = length-encrypt_from 0 xs key

decrypt_from-shape :
    (i : ℕ) (xs key : Bytes)
    → IsBytes (shift_decrypt_from i xs key) × (length (shift_decrypt_from i xs key) ≡ length xs)
unfolding shift_decrypt_from
decrypt_from-shape i [] key = (tt, refl)
decrypt_from-shape i (x ∷ xs) key =
    let rest = decrypt_from-shape (i + 1) xs key in ((omega arith, rest.0), omega (arith, rest.1))

pub shift_decrypt_shape :
    (xs key : Bytes) → IsBytes (shift_decrypt xs key) × (length (shift_decrypt xs key) ≡ length xs)
unfolding shift_decrypt
shift_decrypt_shape xs key = decrypt_from-shape 0 xs key
