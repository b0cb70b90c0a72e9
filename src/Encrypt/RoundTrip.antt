-- ===== src/Encrypt/RoundTrip.antt =====
-- Decrypt undoes Encrypt.
use my_rpc_project_v.Base.{
  ℕ, zero, suc, ◌+◌, ◌*◌, ◌/◌, ◌%◌, ◌⊎◌, inl, inr, ◌<◌, ◌≤◌, ◌≡◌, refl, ap, arith, [], ◌∷◌, Bool,
  true, false, Bytes, IsBytes, All, All-append, Bool-cases, length, length-append, length-drop,
  take, drop, take_front, drop_front, leb,
}
use my_rpc_project_v.Encrypt.{
  generate_random_bytes, master_key, key_length, combine, encrypt, decrypt,
}
use my_rpc_project_v.Encrypt.Base64.{base64_encode, base64_decode}
use my_rpc_project_v.Encrypt.Base64.RoundTrip.{base64_decode-base64_encode}
use my_rpc_project_v.Encrypt.Base64.Shape.{base64_encode_shape, IsText}
use my_rpc_project_v.Encrypt.Shift.{
  shift_encrypt, shift_decrypt, shift_inverse, shift_encrypt-IsBytes, length-shift_encrypt,
  shift_decrypt_shape,
}

random_bytes_shape :
    (draw : ℕ → ℕ) (n : ℕ)
    → IsBytes (generate_random_bytes draw n) × (length (generate_random_bytes draw n) ≡ n)
unfolding generate_random_bytes
random_bytes_shape draw zero = (tt, refl)
random_bytes_shape draw (suc n) =
    let (bytes, size) = random_bytes_shape draw n in
    (
      All-append _ (generate_random_bytes draw n) _ bytes (omega arith, tt),
      omega (arith, size, length-append (generate_random_bytes draw n) ((draw n % 256) ∷ [])),
    )

master_key-IsBytes : IsBytes master_key
unfolding master_key
master_key-IsBytes = omega arith

module _ (draw : ℕ → ℕ) (data_bytes : Bytes) (h : IsBytes data_bytes) where
  abbrev session_key : Bytes
  session_key = generate_random_bytes draw key_length

  combine_shape :
      IsBytes (combine session_key data_bytes)
      × (length (combine session_key data_bytes) ≡ 32 + length data_bytes)
  unfolding combine
  combine_shape = (
    All-append _ (shift_encrypt session_key master_key) _ (shift_encrypt-IsBytes _ _)
        (shift_encrypt-IsBytes _ _),
    omega (
      arith,
      length-append (shift_encrypt session_key master_key) (shift_encrypt data_bytes session_key),
      length-shift_encrypt session_key master_key,
      length-shift_encrypt data_bytes session_key,
      (random_bytes_shape draw 32).1,
    ),
  )

  encrypted_key_size : 32 ≡ length (shift_encrypt session_key master_key)
  encrypted_key_size =
      omega (arith, length-shift_encrypt session_key master_key, (random_bytes_shape draw 32).1)

  key_back :
      shift_decrypt (take key_length (combine session_key data_bytes)) master_key ≡ session_key
  unfolding combine
  key_back =
      rw
        (take_front 32 (shift_encrypt session_key master_key) (shift_encrypt data_bytes session_key)
          encrypted_key_size)
        (shift_inverse master_key session_key master_key-IsBytes (random_bytes_shape draw 32).0).0

  data_back :
      shift_decrypt (drop key_length (combine session_key data_bytes)) session_key ≡ data_bytes
  unfolding combine
  data_back =
      rw
        (drop_front 32 (shift_encrypt session_key master_key) (shift_encrypt data_bytes session_key)
          encrypted_key_size)
        (shift_inverse session_key data_bytes (random_bytes_shape draw 32).0 h).0

  decrypt-combine :
      (plaintext : Bytes)
      → 0 < length data_bytes
      → decrypt (base64_encode (combine session_key data_bytes)) plaintext ≡ (data_bytes, true)
  unfolding decrypt
  decrypt-combine plaintext nonempty =
      rw (base64_decode-base64_encode _ combine_shape.0, key_back, data_back, combine_shape.1)
        (ground (arith, nonempty))

-- Whatever session key is drawn, and whatever the output strings held: Encrypt succeeds on bytes
-- just where there are some, and Decrypt then gives them back.
pub decrypt-encrypt :
    (draw : ℕ → ℕ) (data_bytes ciphertext plaintext : Bytes)
    → IsBytes data_bytes
    → ((data_bytes ≡ []) × (encrypt draw data_bytes ciphertext ≡ (ciphertext, false)))
      ⊎ ((text : Bytes) × (encrypt draw data_bytes ciphertext ≡ (text, true))
          × (decrypt text plaintext ≡ (data_bytes, true)))
unfolding encrypt
decrypt-encrypt draw [] ciphertext plaintext h = inl (refl, refl)
decrypt-encrypt draw (x ∷ xs) ciphertext plaintext h = inr (
  base64_encode (combine (generate_random_bytes draw key_length) (x ∷ xs)),
  refl,
  decrypt-combine draw (x ∷ xs) h plaintext (omega arith),
)

-- A ciphertext is Base64 text, four characters for each three bytes begun of the data and the
-- session key.
pub encrypt_shape :
    (draw : ℕ → ℕ) (data_bytes ciphertext text : Bytes)
    → IsBytes data_bytes
    → encrypt draw data_bytes ciphertext ≡ (text, true)
    → All IsText text × (length text ≡ 4 * ((length data_bytes + 34) / 3))
unfolding encrypt
encrypt_shape draw [] ciphertext text h e = absurd (ground arith)
encrypt_shape draw (x ∷ xs) ciphertext text h e =
    let key = generate_random_bytes draw key_length in
    let (bytes, size) = combine_shape draw (x ∷ xs) h in
    let (chars, count) = base64_encode_shape (combine key (x ∷ xs)) bytes in
    let made : base64_encode (combine key (x ∷ xs)) ≡ text = ap (λ (p : Bytes × Bool). p.0) e in
    rw (← made) (chars, omega (arith, count, size))

-- Decrypt fails just where the text does not decode to more than a key, and leaves its output
-- alone there; otherwise it gives as many bytes as were decoded behind the key.
pub decrypt_cases :
    (text plaintext : Bytes)
    → ((length (base64_decode text) ≤ 32) × (decrypt text plaintext ≡ (plaintext, false)))
      ⊎ ((32 < length (base64_decode text))
          × ((decrypt text plaintext).1 ≡ true)
          × IsBytes (decrypt text plaintext).0
          × (length (decrypt text plaintext).0 + 32 ≡ length (base64_decode text)))
unfolding decrypt
decrypt_cases text plaintext =
    let decoded = base64_decode text in
    let key = shift_decrypt (take key_length decoded) master_key in
    let (bytes, size) = shift_decrypt_shape (drop key_length decoded) key in
    elim (Bool-cases (leb (length decoded) key_length)) [
      | inl short ↦ inl (ground (arith, short), rw short)
      | inr long ↦ inr (
        ground (arith, long),
        rw long,
        rw long bytes,
        rw long (omega (arith, size, length-drop key_length decoded, ground_long decoded long)),
      )
    ]
  where
    ground_long : (xs : Bytes) → leb (length xs) key_length ≡ false → key_length < length xs
    ground_long xs e = ground arith
