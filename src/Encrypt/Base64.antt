-- ===== src/Encrypt/Base64.antt =====
-- Base64Encode and Base64Decode of rpc_src/encrypt/aes_encrypt.cpp. The first `i` places of the
-- arrays that the loops fill are a list of length `i`; what stands behind them is never read.
pub mod Bits
pub mod RoundTrip
pub mod Shape
use my_rpc_project_v.Base.{
  ℕ, zero, suc, ◌+◌, ◌*◌, ◌/◌, ◌%◌, ◌++◌, [], ◌∷◌, List, bit_and, ◌==◌, if◌then◌else◌, Bytes, codes,
  get_or, set, take, replicate,
}

abbrev pub base64_chars : Bytes
base64_chars = codes "ABCDEFGHIJKLMNOPQRSTUVWXYZabcdefghijklmnopqrstuvwxyz0123456789+/"

abbrev pub pad_char : ℕ
pad_char = b'='

unfoldable pub base64_char : ℕ → ℕ
base64_char v = get_or base64_chars v 0

-- The four six-bit values of three bytes; each is stored in an unsigned char.
abbrev pub high_six : ℕ → ℕ
high_six a = bit_and a 0xfc / 4

abbrev pub next_six : ℕ → ℕ → ℕ
next_six a b = (bit_and a 0x03 * 16 + bit_and b 0xf0 / 16) % 256

abbrev pub third_six : ℕ → ℕ → ℕ
third_six b c = (bit_and b 0x0f * 4 + bit_and c 0xc0 / 64) % 256

abbrev pub low_six : ℕ → ℕ
low_six c = bit_and c 0x3f

unfoldable pub encode_group : ℕ → ℕ → ℕ → Bytes
encode_group a b c =
    base64_char (high_six a)
    ∷ base64_char (next_six a b)
    ∷ base64_char (third_six b c)
    ∷ base64_char (low_six c)
    ∷ []

-- What is left in char_array_3 when the input ends, filled up with NUL.
unfoldable pub encode_rest : Bytes → Bytes
encode_rest [] = []
encode_rest (a ∷ []) =
    base64_char (high_six a) ∷ base64_char (next_six a 0) ∷ pad_char ∷ pad_char ∷ []
encode_rest (a ∷ b ∷ _) =
    base64_char (high_six a)
    ∷ base64_char (next_six a b)
    ∷ base64_char (third_six b 0)
    ∷ pad_char
    ∷ []

-- The input that is left, and what stands in char_array_3.
unfoldable pub encode_loop : Bytes → Bytes → Bytes
encode_loop [] held = encode_rest held
encode_loop (x ∷ xs) [] = encode_loop xs (x ∷ [])
encode_loop (x ∷ xs) (a ∷ []) = encode_loop xs (a ∷ x ∷ [])
encode_loop (x ∷ xs) (a ∷ b ∷ _) = encode_group a b x ++ encode_loop xs []

unfoldable pub base64_encode : Bytes → Bytes
base64_encode input = encode_loop input []

-- `base64_map[BASE64_CHARS[i]] = i`, from `i` on.
unfoldable pub fill_map : ℕ → Bytes → List ℕ → List ℕ
fill_map i [] table = table
fill_map i (c ∷ cs) table = fill_map (i + 1) cs (set table c i)

-- The entries for other characters are -1, which becomes 255 in char_array_4.
unfoldable pub base64_map : List ℕ
unfolding fill_map
base64_map = fill_map 0 base64_chars (replicate 256 255)

unfoldable pub decode_char : ℕ → ℕ
unfolding base64_map
decode_char c = get_or base64_map c 255

-- The three bytes of four six-bit values.
abbrev pub first_byte : ℕ → ℕ → ℕ
first_byte p q = (p * 4 + bit_and q 0x30 / 16) % 256

abbrev pub second_byte : ℕ → ℕ → ℕ
second_byte q r = (bit_and q 0xf * 16 + bit_and r 0x3c / 4) % 256

abbrev pub third_byte : ℕ → ℕ → ℕ
third_byte r s = (bit_and r 0x3 * 64 + s) % 256

unfoldable pub decode_group : ℕ → ℕ → ℕ → ℕ → Bytes
decode_group a b c d =
    first_byte (decode_char a) (decode_char b)
    ∷ second_byte (decode_char b) (decode_char c)
    ∷ third_byte (decode_char c) (decode_char d)
    ∷ []

-- `i` characters are left: the places behind them are 0, and `i - 1` bytes are taken.
unfoldable pub decode_rest : Bytes → Bytes
decode_rest [] = []
decode_rest (a ∷ []) = []
decode_rest (a ∷ b ∷ []) = take 1 (decode_group a b 0 0)
decode_rest (a ∷ b ∷ c ∷ _) = take 2 (decode_group a b c 0)

-- The loop ends at the first '='.
unfoldable pub decode_loop : Bytes → Bytes → Bytes
decode_loop [] held = decode_rest held
decode_loop (x ∷ xs) [] = if x == pad_char then [] else decode_loop xs (x ∷ [])
decode_loop (x ∷ xs) (a ∷ []) =
    if x == pad_char then decode_rest (a ∷ []) else decode_loop xs (a ∷ x ∷ [])
decode_loop (x ∷ xs) (a ∷ b ∷ []) =
    if x == pad_char then decode_rest (a ∷ b ∷ []) else decode_loop xs (a ∷ b ∷ x ∷ [])
decode_loop (x ∷ xs) (a ∷ b ∷ c ∷ _) =
    if x == pad_char
    then decode_rest (a ∷ b ∷ c ∷ [])
    else decode_group a b c x ++ decode_loop xs []

unfoldable pub base64_decode : Bytes → Bytes
base64_decode input = decode_loop input []
