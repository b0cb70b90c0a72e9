-- ===== src/Base/Int.antt =====
-- Signed integers: file descriptors, timeouts and indices that the code compares with 0.
use Prim.Native.Nat.{ℕ, zero, suc}
use mathlib.Core.Bool.{Bool, true, false}
use mathlib.Core.Path.{◌≡◌, refl, ap}
use native.Mathlib.Omega.{arith}
use my_rpc_project_v.Base.Tests.{◌==◌, ==_iff}

-- `negsuc n` is -(n + 1).
pub data ℤ : Type 0 where
  pos : ℕ → ℤ
  negsuc : ℕ → ℤ

-- n >= 0
unfoldable pub is_nonneg : ℤ → Bool
is_nonneg (pos n) = true
is_nonneg (negsuc n) = false

-- n > 0
unfoldable pub is_pos : ℤ → Bool
is_pos (pos zero) = false
is_pos (pos (suc n)) = true
is_pos (negsuc n) = false

unfoldable pub int_eq : ℤ → ℤ → Bool
int_eq (pos m) (pos n) = m == n
int_eq (pos m) (negsuc n) = false
int_eq (negsuc m) (pos n) = false
int_eq (negsuc m) (negsuc n) = m == n

pub int_eq-eq : (a b : ℤ) → int_eq a b ≡ true → a ≡ b
unfolding int_eq
int_eq-eq (pos m) (pos n) h = ap pos ((==_iff m n).0 h)
int_eq-eq (pos m) (negsuc n) h = ground arith
int_eq-eq (negsuc m) (pos n) h = ground arith
int_eq-eq (negsuc m) (negsuc n) h = ap negsuc ((==_iff m n).0 h)

pub int_eq_refl : (a : ℤ) → int_eq a a ≡ true
unfolding int_eq
int_eq_refl (pos m) = (==_iff m m).1 refl
int_eq_refl (negsuc m) = (==_iff m m).1 refl
