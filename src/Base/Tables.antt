-- ===== src/Base/Tables.antt =====
-- A law on a small range of numbers, proved by evaluating both sides on all of them.
use Prim.Native.Nat.{ℕ, zero, suc, ◌<◌}
use mathlib.Core.Path.{◌≡◌}
use mathlib.Core.Bool.{Bool, true, ◌&&◌}
use native.Mathlib.Omega.{arith}
use my_rpc_project_v.Base.Tests.{◌==◌}

unfoldable pub agree_below : ℕ → (ℕ → ℕ) → (ℕ → ℕ) → Bool
agree_below zero f g = true
agree_below (suc n) f g = f n == g n && agree_below n f g

pub agree_below-eq : (n : ℕ) (f g : ℕ → ℕ) (x : ℕ) → agree_below n f g ≡ true → x < n → f x ≡ g x
unfolding agree_below
agree_below-eq zero f g x h lt = absurd (omega arith)
agree_below-eq (suc n) f g x h lt = ground (arith, agree_below-eq n f g x)
