-- ===== src/Encrypt.antt =====
-- rpc_src/encrypt: AesEncrypt. A method returns what it leaves in its output string with its bool.
-- Memory is taken to be there, so nothing is thrown.
pub mod Base64
pub mod Shift
pub mod RoundTrip
mod Tests
use my_rpc_project_v.Base.{
  ℕ, zero, suc, ◌%◌, List, [], ◌∷◌, ◌++◌, Bool, true, false, Bytes, codes, length, take, drop, leb,
  if◌then◌else◌,
}
use Base64.{base64_encode, base64_decode}
use Shift.{shift_encrypt, shift_decrypt}

-- KEY_LENGTH
abbrev pub key_length : ℕ
key_length = 32

unfoldable pub master_key : Bytes
master_key = codes "MyRPC_Secret_Key_2026_Production!@#$%^&*"

-- GenerateRandomBytes: `draw i` is the number that the i-th call of the distribution gives.
unfoldable pub generate_random_bytes : (ℕ → ℕ) → ℕ → Bytes
generate_random_bytes draw zero = []
generate_random_bytes draw (suc n) = generate_random_bytes draw n ++ ((draw n % 256) ∷ [])

-- The two keys' layers in front of Base64.
unfoldable pub combine : Bytes → Bytes → Bytes
combine session_key data_bytes =
    shift_encrypt session_key master_key ++ shift_encrypt data_bytes session_key

unfoldable pub encrypt : (ℕ → ℕ) → Bytes → Bytes → Bytes × Bool
encrypt draw [] ciphertext = (ciphertext, false)
encrypt draw (x ∷ xs) ciphertext =
    let session_key = generate_random_bytes draw key_length in
    (base64_encode (combine session_key (x ∷ xs)), true)

unfoldable pub decrypt : Bytes → Bytes → Bytes × Bool
decrypt encrypted_data plaintext =
    let decoded = base64_decode encrypted_data in
    if leb (length decoded) key_length
    then (plaintext, false)
    else let session_key = shift_decrypt (take key_length decoded) master_key in
      (shift_decrypt (drop key_length decoded) session_key, true)
