-- ===== src/Base/Decimal.antt =====
-- std::to_string of a number that is not negative, and the conversions between integer types.
use Prim.Native.Nat.{ℕ, zero, suc, ◌+◌, ◌-◌, ◌/◌, ◌%◌, ◌^◌}
use mathlib.Core.List.{[], ◌∷◌}
use my_rpc_project_v.Base.Words.{Bytes}
use my_rpc_project_v.Base.Tests.{ltb, if◌then◌else◌}
use my_rpc_project_v.Base.Int.{ℤ, pos, negsuc}

-- The digits in front of `rest`, at most `fuel` of them.
unfoldable pub digits : ℕ → ℕ → Bytes → Bytes
digits zero n rest = rest
digits (suc fuel) n rest =
    let more = digits fuel (n / 10) ((b'0' + n % 10) ∷ rest) in
    if ltb n 10 then (b'0' + n) ∷ rest else more

-- A uint64_t has at most twenty digits.
unfoldable pub to_text : ℕ → Bytes
unfolding digits
to_text n = digits 20 n []

-- The conversion to an unsigned type of `m` values.
unfoldable pub wrap : ℕ → ℤ → ℕ
wrap m (pos n) = n % m
wrap m (negsuc n) = m - 1 - n % m

-- The conversion to an int of 32 bits.
unfoldable pub to_int : ℤ → ℤ
unfolding wrap
to_int z =
    if ltb (wrap (2 ^ 32) z) (2 ^ 31)
    then pos (wrap (2 ^ 32) z)
    else negsuc (2 ^ 32 - 1 - wrap (2 ^ 32) z)
