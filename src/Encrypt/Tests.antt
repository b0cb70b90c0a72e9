-- ===== src/Encrypt/Tests.antt =====
-- Base64, the ciphers and Encrypt on a few bytes.
use my_rpc_project_v.Base.{ℕ, ◌+◌, ◌*◌, ◌≡◌, ◌⊎◌, [], refl, arith, Bytes, codes, true, false}
use my_rpc_project_v.Encrypt.{encrypt, decrypt, combine, generate_random_bytes}
use my_rpc_project_v.Encrypt.RoundTrip.{decrypt-encrypt}
use my_rpc_project_v.Encrypt.Base64.{
  base64_encode, base64_decode, encode_loop, encode_group, encode_rest, base64_char, decode_loop,
  decode_rest, decode_group, decode_char,
}
use my_rpc_project_v.Encrypt.Base64.RoundTrip.{base64_decode-base64_encode}

abbrev word_man : Bytes
word_man = codes "Many"

encoded_man : base64_encode word_man ≡ codes "TWFueQ=="
unfolding base64_encode encode_loop encode_group encode_rest base64_char
encoded_man = refl

decoded_man : base64_decode (codes "TWFueQ==") ≡ word_man
unfolding base64_decode decode_loop decode_group decode_rest decode_char
decoded_man = refl

base64_decode-base64_encode_example : base64_decode (base64_encode word_man) ≡ word_man
base64_decode-base64_encode_example = base64_decode-base64_encode word_man (omega arith)

abbrev draws : ℕ → ℕ
draws i = i * 37 + 11

decrypt-encrypt_example :
    ((word_man ≡ []) × (encrypt draws word_man [] ≡ ([], false)))
    ⊎ ((text : Bytes) × (encrypt draws word_man [] ≡ (text, true))
        × (decrypt text (codes "old") ≡ (word_man, true)))
decrypt-encrypt_example = decrypt-encrypt draws word_man [] (codes "old") (omega arith)

abbrev hidden : Bytes
hidden = base64_encode (combine (generate_random_bytes draws 32) word_man)

encrypted_man : encrypt draws word_man [] ≡ (hidden, true)
unfolding encrypt
encrypted_man = refl
