-- ===== src/Encrypt/Base64/Shape.antt =====
-- The text that Base64Encode gives.
use my_rpc_project_v.Base.{
  ℕ, ◌+◌, ◌*◌, ◌/◌, ◌<◌, ◌≡◌, refl, arith, ◌==◌, [], ◌∷◌, Bool, true, Bytes, IsBytes, length, All,
  leb, ◌||◌, ◌&&◌, agree_below, agree_below-eq, if◌then◌else◌,
}
use my_rpc_project_v.Encrypt.Base64.{
  base64_char, pad_char, encode_group, encode_rest, encode_loop, base64_encode,
}
use my_rpc_project_v.Encrypt.Base64.Bits.{high_six-lt, next_six-lt, third_six-lt, low_six-lt}

-- A letter, a digit, '+', '/' or '='.
unfoldable pub is_base64_char : ℕ → Bool
is_base64_char c =
    leb b'A' c && leb c b'Z'
    || (leb b'a' c && leb c b'z'
        || (leb b'0' c && leb c b'9' || (c == b'+' || (c == b'/' || c == b'='))))

abbrev pub IsText : ℕ → Type 0
IsText c = is_base64_char c ≡ true

base64_char-IsText : (v : ℕ) → v < 64 → IsText (base64_char v)
unfolding agree_below base64_char is_base64_char
base64_char-IsText v h = ground (
  arith,
  agree_below-eq 64 (λ y. if is_base64_char (base64_char y) then 1 else 0) (λ y. 1) v refl h,
)

encode_loop-shape :
    (xs : Bytes)
    → IsBytes xs
    → All IsText (encode_loop xs []) × (length (encode_loop xs []) ≡ 4 * ((length xs + 2) / 3))
unfolding encode_loop encode_rest encode_group
encode_loop-shape [] h = (tt, omega arith)
encode_loop-shape (a ∷ []) h = (
  (
    base64_char-IsText _ (high_six-lt a h.0),
    (base64_char-IsText _ (next_six-lt a 0 h.0 (omega arith)), (pad, (pad, tt))),
  ),
  omega arith,
)
  where
    pad : IsText pad_char
    pad = unfold is_base64_char in refl
encode_loop-shape (a ∷ b ∷ []) h = (
  (
    base64_char-IsText _ (high_six-lt a h.0),
    (
      base64_char-IsText _ (next_six-lt a b h.0 h.1.0),
      (
        base64_char-IsText _ (third_six-lt b 0 h.1.0 (omega arith)),
        (unfold is_base64_char in refl, tt),
      ),
    ),
  ),
  omega arith,
)
encode_loop-shape (a ∷ b ∷ c ∷ xs) h =
    let rest = encode_loop-shape xs h.1.1.1 in
    (
      (
        base64_char-IsText _ (high_six-lt a h.0),
        (
          base64_char-IsText _ (next_six-lt a b h.0 h.1.0),
          (
            base64_char-IsText _ (third_six-lt b c h.1.0 h.1.1.0),
            (base64_char-IsText _ (low_six-lt c h.1.1.0), rest.0),
          ),
        ),
      ),
      omega (arith, rest.1),
    )

-- Bytes are encoded as four characters for each three bytes begun, all of them letters, digits,
-- '+', '/' or '='.
pub base64_encode_shape :
    (xs : Bytes)
    → IsBytes xs
    → All IsText (base64_encode xs) × (length (base64_encode xs) ≡ 4 * ((length xs + 2) / 3))
unfolding base64_encode
base64_encode_shape xs h = encode_loop-shape xs h
