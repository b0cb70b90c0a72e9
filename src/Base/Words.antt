-- ===== src/Base/Words.antt =====
-- Bytes as numbers below 256, and 32-bit words stored in them.
use Prim.Native.Nat.{ℕ, ◌+◌, ◌*◌, ◌/◌, ◌%◌, ◌^◌, ◌<◌, ◌≤◌}
use Prim.Native.Char.{code}
use Prim.Native.String.{String}
use mathlib.Core.Path.{◌≡◌, refl, ap₂}
use mathlib.Core.List.{List, [], ◌∷◌, ◌++◌}
use mathlib.Core.Bool.{Bool, true, false, ◌&&◌}
use native.Mathlib.Omega.{arith}
use my_rpc_project_v.Base.Lists.{length, drop, All}
use my_rpc_project_v.Base.Tests.{◌==◌}

abbrev pub Bytes : Type 0
Bytes = List ℕ

abbrev pub IsByte : ℕ → Type 0
IsByte b = b < 256

abbrev pub IsBytes : Bytes → Type 0
IsBytes = All IsByte

-- The bytes of an ASCII text.
abbrev pub codes : String → Bytes
codes String.[] = []
codes (String.◌∷◌ c s) = code c ∷ codes s

-- A uint32_t below 2 ^ 32.
abbrev pub IsU32 : ℕ → Type 0
IsU32 n = n < 2 ^ 32

-- The conversion to uint32_t.
abbrev pub u32 : ℕ → ℕ
u32 n = n % 2 ^ 32

-- The memory of a uint32_t on a little-endian host, lowest byte first.
unfoldable pub word_bytes : ℕ → Bytes
word_bytes n = (n % 256) ∷ (n / 256 % 256) ∷ (n / 65536 % 256) ∷ (n / 16777216 % 256) ∷ []

-- The uint32_t read back from the first four bytes.
unfoldable pub word : Bytes → ℕ
word (a ∷ b ∷ c ∷ d ∷ rest) = a + 256 * b + 65536 * c + 16777216 * d
word _ = 0

-- The same for htonl: highest byte first.
unfoldable pub net_bytes : ℕ → Bytes
net_bytes n = (n / 16777216 % 256) ∷ (n / 65536 % 256) ∷ (n / 256 % 256) ∷ (n % 256) ∷ []

unfoldable pub net_word : Bytes → ℕ
net_word (a ∷ b ∷ c ∷ d ∷ rest) = d + 256 * c + 65536 * b + 16777216 * a
net_word _ = 0

pub length-word_bytes : (n : ℕ) → length (word_bytes n) ≡ 4
unfolding word_bytes
length-word_bytes n = refl

pub length-net_bytes : (n : ℕ) → length (net_bytes n) ≡ 4
unfolding net_bytes
length-net_bytes n = refl

pub word-word_bytes : (n : ℕ) (rest : Bytes) → IsU32 n → word (word_bytes n ++ rest) ≡ n
unfolding word word_bytes
word-word_bytes n rest h = omega arith

pub net_word-net_bytes : (n : ℕ) (rest : Bytes) → IsU32 n → net_word (net_bytes n ++ rest) ≡ n
unfolding net_word net_bytes
net_word-net_bytes n rest h = omega arith

-- A word that was read from bytes is stored as those bytes.
pub word_bytes-word :
    (xs : Bytes) → IsBytes xs → 4 ≤ length xs → word_bytes (word xs) ++ drop 4 xs ≡ xs
unfolding word word_bytes
word_bytes-word [] h k = absurd (omega arith)
word_bytes-word (a ∷ []) h k = absurd (omega arith)
word_bytes-word (a ∷ b ∷ []) h k = absurd (omega arith)
word_bytes-word (a ∷ b ∷ c ∷ []) h k = absurd (omega arith)
word_bytes-word (a ∷ b ∷ c ∷ d ∷ rest) h k =
    ap₂ ◌∷◌ (omega arith)
      (ap₂ ◌∷◌ (omega arith) (ap₂ ◌∷◌ (omega arith) (ap₂ ◌∷◌ (omega arith) refl)))

pub net_word-append : (xs ys : Bytes) → 4 ≤ length xs → net_word (xs ++ ys) ≡ net_word xs
unfolding net_word
net_word-append [] ys h = absurd (omega arith)
net_word-append (a ∷ []) ys h = absurd (omega arith)
net_word-append (a ∷ b ∷ []) ys h = absurd (omega arith)
net_word-append (a ∷ b ∷ c ∷ []) ys h = absurd (omega arith)
net_word-append (a ∷ b ∷ c ∷ d ∷ rest) ys h = refl

pub word_bytes-IsBytes : (n : ℕ) → IsBytes (word_bytes n)
unfolding word_bytes
word_bytes-IsBytes n = omega arith

pub net_bytes-IsBytes : (n : ℕ) → IsBytes (net_bytes n)
unfolding net_bytes
net_bytes-IsBytes n = omega arith

pub word-IsU32 : (xs : Bytes) → IsBytes xs → IsU32 (word xs)
unfolding word
word-IsU32 [] h = omega arith
word-IsU32 (a ∷ []) h = omega arith
word-IsU32 (a ∷ b ∷ []) h = omega arith
word-IsU32 (a ∷ b ∷ c ∷ []) h = omega arith
word-IsU32 (a ∷ b ∷ c ∷ d ∷ rest) h = omega arith

-- `==` on std::string.
unfoldable pub bytes_eq : Bytes → Bytes → Bool
bytes_eq [] [] = true
bytes_eq [] (y ∷ ys) = false
bytes_eq (x ∷ xs) [] = false
bytes_eq (x ∷ xs) (y ∷ ys) = x == y && bytes_eq xs ys

pub bytes_eq-eq : (xs ys : Bytes) → bytes_eq xs ys ≡ true → xs ≡ ys
unfolding bytes_eq
bytes_eq-eq [] [] h = refl
bytes_eq-eq [] (y ∷ ys) h = ground arith
bytes_eq-eq (x ∷ xs) [] h = ground arith
bytes_eq-eq (x ∷ xs) (y ∷ ys) h = ground (arith, bytes_eq-eq xs ys)

pub bytes_eq_refl : (xs : Bytes) → bytes_eq xs xs ≡ true
unfolding bytes_eq
bytes_eq_refl [] = refl
bytes_eq_refl (x ∷ xs) = ground (arith, bytes_eq_refl xs)
