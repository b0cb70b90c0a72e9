-- ===== src/Encrypt/Base64/RoundTrip.antt =====
-- Base64Decode undoes Base64Encode.
use my_rpc_project_v.Base.{ℕ, ◌<◌, ◌≡◌, ◌∙◌, ap, refl, arith, [], ◌∷◌, ◌++◌, Bytes, IsBytes}
use my_rpc_project_v.Encrypt.Base64.{
  base64_char, decode_char, high_six, next_six, third_six, low_six, encode_group, encode_rest,
  encode_loop, base64_encode, decode_group, decode_rest, decode_loop, base64_decode, first_byte,
  second_byte, third_byte,
}
use my_rpc_project_v.Encrypt.Base64.Bits.{
  high_six-lt, next_six-lt, third_six-lt, low_six-lt, first_byte-six, second_byte-six,
  third_byte-six, decode_char-base64_char, base64_char-ne-pad,
}

module _ (a b : ℕ) (ha : a < 256) (hb : b < 256) where
  first_back :
      first_byte (decode_char (base64_char (high_six a))) (decode_char (base64_char (next_six a b)))
      ≡ a
  first_back =
      rw
        (
          decode_char-base64_char (high_six a) (high_six-lt a ha),
          decode_char-base64_char (next_six a b) (next_six-lt a b ha hb),
        )
        (first_byte-six a b ha hb)

  module _ (c : ℕ) (hc : c < 256) where
    second_back :
        second_byte
          (decode_char (base64_char (next_six a b)))
          (decode_char (base64_char (third_six b c)))
        ≡ b
    second_back =
        rw
          (
            decode_char-base64_char (next_six a b) (next_six-lt a b ha hb),
            decode_char-base64_char (third_six b c) (third_six-lt b c hb hc),
          )
          (second_byte-six a b c ha hb hc)

    third_back :
        third_byte
          (decode_char (base64_char (third_six b c)))
          (decode_char (base64_char (low_six c)))
        ≡ c
    third_back =
        rw
          (
            decode_char-base64_char (third_six b c) (third_six-lt b c hb hc),
            decode_char-base64_char (low_six c) (low_six-lt c hc),
          )
          (third_byte-six b c hb hc)

    group_back :
        (rest : Bytes)
        → decode_loop (encode_group a b c ++ rest) [] ≡ a ∷ b ∷ c ∷ decode_loop rest []
    unfolding encode_group decode_loop decode_group
    group_back rest = rw (
      base64_char-ne-pad (high_six a) (high_six-lt a ha),
      base64_char-ne-pad (next_six a b) (next_six-lt a b ha hb),
      base64_char-ne-pad (third_six b c) (third_six-lt b c hb hc),
      base64_char-ne-pad (low_six c) (low_six-lt c hc),
      first_back,
      second_back,
      third_back,
    )

  two_back : decode_loop (encode_rest (a ∷ b ∷ [])) [] ≡ a ∷ b ∷ []
  unfolding encode_rest decode_loop decode_rest decode_group
  two_back = rw (
    base64_char-ne-pad (high_six a) (high_six-lt a ha),
    base64_char-ne-pad (next_six a b) (next_six-lt a b ha hb),
    base64_char-ne-pad (third_six b 0) (third_six-lt b 0 hb (omega arith)),
    first_back,
    second_back 0 (omega arith),
  )

one_back : (a : ℕ) → a < 256 → decode_loop (encode_rest (a ∷ [])) [] ≡ a ∷ []
unfolding encode_rest decode_loop decode_rest decode_group
one_back a ha = rw (
  base64_char-ne-pad (high_six a) (high_six-lt a ha),
  base64_char-ne-pad (next_six a 0) (next_six-lt a 0 ha (omega arith)),
  first_back a 0 ha (omega arith),
)

decode_loop-encode_loop : (xs : Bytes) → IsBytes xs → decode_loop (encode_loop xs []) [] ≡ xs
unfolding encode_loop
decode_loop-encode_loop [] h = unfold encode_rest decode_loop decode_rest in refl
decode_loop-encode_loop (a ∷ []) h = one_back a h.0
decode_loop-encode_loop (a ∷ b ∷ []) h = two_back a b h.0 h.1.0
decode_loop-encode_loop (a ∷ b ∷ c ∷ xs) h =
    group_back a b h.0 h.1.0 c h.1.1.0 (encode_loop xs [])
    ∙ ap (λ ys. a ∷ b ∷ c ∷ ys) (decode_loop-encode_loop xs h.1.1.1)

-- Decoding what was encoded from bytes gives the bytes back, whatever their number.
pub base64_decode-base64_encode : (xs : Bytes) → IsBytes xs → base64_decode (base64_encode xs) ≡ xs
unfolding base64_decode base64_encode
base64_decode-base64_encode xs h = decode_loop-encode_loop xs h
